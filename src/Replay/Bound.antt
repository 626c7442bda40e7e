-- ===== src/Replay/Bound.antt =====
-- The words of the bitmap stay 64-bit words.
use native.Mathlib.Nat.{pow-le-pow_right}
use vibe_vpn.Base.{
  ℕ, zero, suc, ◌-◌, ◌*◌, ◌/◌, ◌%◌, ◌^◌, ◌<◌, ◌≤◌, List, leb, length, get_or, All, All-get_or,
  All-set, All-replicate, Bool-cases, inl, inr, arith,
}
use vibe_vpn.Base.Bits.{bit_or-lt}
use vibe_vpn.Replay.{shifted_word, shift_loop, shift_up, or_at}

abbrev pub IsWord : ℕ → Type 0
IsWord x = x < 2 ^ 64

pub two_pow-lt_word : (i : ℕ) → i < 64 → 1 * 2 ^ i < 2 ^ 64
two_pow-lt_word i h =
    let m : 2 ^ i ≤ 2 ^ 63 =
      pow-le-pow_right {n = 2} (omega arith) {i = i} {j = 63} (omega arith) in
    omega arith

pub or_at-IsWord :
    (bits : List ℕ) (i m : ℕ) → All IsWord bits → IsWord m → All IsWord (or_at bits i m)
or_at-IsWord bits i m h k =
    All-set IsWord bits i _ h (bit_or-lt 64 _ m (All-get_or IsWord bits i 0 h (omega arith)) k)

shifted_word-IsWord :
    (bits : List ℕ) (words rem i : ℕ) → All IsWord bits → IsWord (shifted_word bits words rem i)
unfolding shifted_word
shifted_word-IsWord bits words rem i h = ground (
  arith,
  All-get_or IsWord bits (i - words) 0 h (omega arith),
  All-get_or IsWord bits (i - words - 1) 0 h (omega arith),
  bit_or-lt 64 (get_or bits (i - words) 0 * 2 ^ rem % 2 ^ 64)
      (get_or bits (i - words - 1) 0 / 2 ^ (64 - rem)),
  bit_or-lt 64 (0 * 2 ^ rem % 2 ^ 64) (get_or bits (i - words - 1) 0 / 2 ^ (64 - rem)),
)

shift_loop-IsWord :
    (k words rem : ℕ) (bits : List ℕ) → All IsWord bits → All IsWord (shift_loop k words rem bits)
unfolding shift_loop
shift_loop-IsWord zero words rem bits h = h
shift_loop-IsWord (suc k) words rem bits h =
    shift_loop-IsWord k words rem _
      (All-set IsWord bits k _ h (shifted_word-IsWord bits words rem k h))

pub shift_up-IsWord : (bits : List ℕ) (n : ℕ) → All IsWord bits → All IsWord (shift_up bits n)
unfolding shift_up
shift_up-IsWord bits n h = elim (Bool-cases (leb (length bits) (n / 64))) [
  | inl far ↦ rw far (All-replicate IsWord (length bits) 0 (omega arith))
  | inr near ↦ rw near (shift_loop-IsWord (length bits) (n / 64) (n % 64) bits h)
]
