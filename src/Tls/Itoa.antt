-- ===== src/Tls/Itoa.antt =====
-- `itoa` of internal/transport/tlsx/tlsx.go: it fills a buffer of 20 bytes from its end.
use vibe_vpn.Base.{
  ℕ, zero, suc, ◌+◌, ◌-◌, ◌*◌, ◌/◌, ◌%◌, ◌^◌, ◌≡◌, ◌<◌, refl, ap, ◌∙◌, Option, none, some, ◌==◌,
  if◌then◌else◌, [], ◌∷◌, Bytes, arith, Bool-cases, inl, inr,
}
use native.Mathlib.Nat.{pow-suc}

-- The loop, with room for `i` more digits; where there is none left, the index is negative and
-- `b[i]` panics.
unfoldable pub digits : ℕ → ℕ → Bytes → Option Bytes
digits i zero b = some b
digits zero (suc n) b = none
digits (suc i) (suc n) b = digits i (suc n / 10) ((48 + suc n % 10) ∷ b)

unfoldable pub itoa : ℕ → Option Bytes
itoa n = if n == 0 then some (48 ∷ []) else digits 20 n []

-- The number that decimal digits write, after a number in front of them.
abbrev pub value : ℕ → Bytes → ℕ
value a [] = a
value a (c ∷ b) = value (a * 10 + (c - 48)) b

shorter : (i n : ℕ) → suc n < 10 ^ suc i → suc n / 10 < 10 ^ i
shorter i n h = let p : 10 ^ suc i ≡ 10 ^ i * 10 = pow-suc 10 i in omega arith

written : (n : ℕ) (b : Bytes) → value (suc n / 10) ((48 + suc n % 10) ∷ b) ≡ value (suc n) b
written n b = ap (λ x. value x b) {x = suc n / 10 * 10 + (48 + suc n % 10 - 48)} (omega arith)

digits-value :
    (i n : ℕ) (b : Bytes)
    → n < 10 ^ i
    → (out : Bytes) × (digits i n b ≡ some out) × (value 0 out ≡ value n b)
unfolding digits
digits-value i zero b h = (b, refl, refl)
digits-value zero (suc n) b h = absurd (omega arith)
digits-value (suc i) (suc n) b h =
    let (out, run, v) = digits-value i (suc n / 10) ((48 + suc n % 10) ∷ b) (shorter i n h) in
    (out, run, v ∙ written n b)

-- `itoa` of a number that is an int never runs out of its buffer, and the digits write the number.
pub itoa_total : (n : ℕ) → n < 2 ^ 63 → (out : Bytes) × (itoa n ≡ some out) × (value 0 out ≡ n)
unfolding itoa
itoa_total n h = elim (Bool-cases (n == 0)) [
  | inl z ↦ (48 ∷ [], ground arith, ground arith)
  | inr z ↦
      let (out, run, v) = digits-value 20 n [] (omega arith) in (out, ground arith, ground arith)
]
