-- ===== src/Base/Bits/Step.antt =====
-- One equation for the lowest digit of each bit operation, and its meaning for every digit.
use Prim.Native.Nat.{
  ℕ, zero, suc, ◌+◌, ◌-◌, ◌*◌, ◌/◌, ◌%◌, ◌^◌, ◌≤◌, ◌<◌, min, max, bit_and, bit_or, digits, bitwise,
  bit_and-bitwise, bit_or-bitwise,
}
use mathlib.Core.Path.{◌≡◌, refl}
use mathlib.Core.Bool.{Bool, false, not, ◌||◌}
use mathlib.Core.WellFounded
use native.Mathlib.Nat.{pow-suc}
use native.Mathlib.Omega.{arith}
use vibe_vpn.Base.Tests.{◌==◌}
use vibe_vpn.Base.Order.{lt_wf}

pub two_pow-pos : (k : ℕ) → 0 < 2 ^ k
two_pow-pos zero = omega arith
two_pow-pos (suc k) = omega (arith, pow-suc 2 k, two_pow-pos k)

-- The digit of `x` at place `i`.
unfoldable pub test_bit : ℕ → ℕ → Bool
test_bit x zero = x % 2 == 1
test_bit x (suc i) = test_bit (x / 2) i

pub test_bit-zero : (i : ℕ) → test_bit 0 i ≡ false
unfolding test_bit
test_bit-zero zero = refl
test_bit-zero (suc i) = test_bit-zero i

module _ (pad : ℕ → ℕ) (join : ℕ → ℕ → ℕ) where
  digits-enough : (j k a b : ℕ) → a ≤ j → a ≤ k → digits pad join j a b ≡ digits pad join k a b
  digits-enough zero zero a b hj hk = refl
  digits-enough zero (suc k) zero b hj hk = refl
  digits-enough (suc j) zero zero b hj hk = refl
  digits-enough (suc j) (suc k) zero b hj hk = refl
  digits-enough zero k (suc a) b hj hk = absurd (omega arith)
  digits-enough (suc j) zero (suc a) b hj hk = absurd (omega arith)
  digits-enough (suc j) (suc k) (suc a) b hj hk =
      rw (digits-enough j k (suc a / 2) (b / 2) (omega arith) (omega arith))

  bitwise_step :
      (a b : ℕ)
      → bitwise pad join (suc a) b
        ≡ bitwise pad join (suc a / 2) (b / 2) * 2 + join (suc a % 2) (b % 2)
  bitwise_step a b =
      omega (arith, digits-enough a (suc a / 2) (suc a / 2) (b / 2) (omega arith) (omega arith))

-- `or` is the greater and `and` the smaller of two digits.
pub bit_and_digit : (x y : ℕ) → bit_and x y ≡ min (x % 2) (y % 2) + 2 * bit_and (x / 2) (y / 2)
bit_and_digit zero y = simp bit_and-bitwise (omega arith)
bit_and_digit (suc x) y = simp bit_and-bitwise (omega (arith, bitwise_step (λ rest. 0) min x y))

pub bit_or_digit : (x y : ℕ) → bit_or x y ≡ max (x % 2) (y % 2) + 2 * bit_or (x / 2) (y / 2)
bit_or_digit zero y = simp bit_or-bitwise (omega arith)
bit_or_digit (suc x) y = simp bit_or-bitwise (omega (arith, bitwise_step (λ rest. rest) max x y))

pub test_bit-bit_or :
    (place x y : ℕ) → test_bit (bit_or x y) place ≡ (test_bit x place || test_bit y place)
unfolding test_bit
test_bit-bit_or zero x y = ground (arith, bit_or_digit x y)
test_bit-bit_or (suc place) x y =
    let halves : bit_or x y / 2 ≡ bit_or (x / 2) (y / 2) = omega (arith, bit_or_digit x y) in
    rw halves (test_bit-bit_or place (x / 2) (y / 2))

bit_and-zero : (a : ℕ) → bit_and a 0 ≡ 0
bit_and-zero a = WellFounded.induction lt_wf {C = λ x. bit_and x 0 ≡ 0} a halved
  where
    halved : (x : ℕ) → ((y : ℕ) → y < x → bit_and y 0 ≡ 0) → bit_and x 0 ≡ 0
    halved zero smaller = refl
    halved (suc x) smaller =
        omega (arith, smaller (suc x / 2) (omega arith), bit_and_digit (suc x) 0)

-- `x & (1 << i) == 0` says that the digit is clear.
pub bit_and-two_pow : (i x : ℕ) → (bit_and x (2 ^ i) == 0) ≡ not (test_bit x i)
unfolding test_bit
bit_and-two_pow zero x = ground (arith, bit_and_digit x 1, bit_and-zero (x / 2))
bit_and-two_pow (suc i) x =
    let p : 2 ^ suc i ≡ 2 ^ i * 2 = pow-suc 2 i in
    let h : 2 ^ suc i / 2 ≡ 2 ^ i = omega arith in
    let e : bit_and x (2 ^ suc i) ≡ bit_and (x / 2) (2 ^ i) * 2 =
      omega (arith, bit_and_digit x (2 ^ suc i), ap2 x i h) in
    rw e (ground (arith, bit_and-two_pow i (x / 2)))
  where
    ap2 :
        (x i : ℕ)
        → 2 ^ suc i / 2 ≡ 2 ^ i
        → bit_and (x / 2) (2 ^ suc i / 2) ≡ bit_and (x / 2) (2 ^ i)
    ap2 x i h = cc

pub bit_or-lt : (w a b : ℕ) → a < 2 ^ w → b < 2 ^ w → bit_or a b < 2 ^ w
bit_or-lt zero a b ha hb = ground (arith, bit_or_digit a b)
bit_or-lt (suc w) a b ha hb =
    let p : 2 ^ suc w ≡ 2 ^ w * 2 = pow-suc 2 w in
    omega (arith, bit_or_digit a b, bit_or-lt w (a / 2) (b / 2) (omega arith) (omega arith))

-- Truncation to one more digit.
pub mod-two_pow_suc : (k a : ℕ) → a % 2 ^ suc k ≡ a / 2 % 2 ^ k * 2 + a % 2
mod-two_pow_suc k a =
    let p : 2 ^ suc k ≡ 2 ^ k * 2 = pow-suc 2 k in rw p (grind (arith, two_pow-pos k))

pub bit_and-low_mask : (k a : ℕ) → bit_and a (2 ^ k - 1) ≡ a % 2 ^ k
bit_and-low_mask zero a = rw (bit_and-zero a) (omega arith)
bit_and-low_mask (suc k) a =
    let p : 2 ^ suc k ≡ 2 ^ k * 2 = pow-suc 2 k in
    let h : (2 ^ suc k - 1) / 2 ≡ 2 ^ k - 1 = omega arith in
    rw (bit_and_digit a (2 ^ suc k - 1), h, bit_and-low_mask k (a / 2), mod-two_pow_suc k a)
      (omega (arith, two_pow-pos k))

-- `x &= ^63`.
pub bit_and-clear_six : (a : ℕ) → a < 2 ^ 64 → bit_and a (2 ^ 64 - 64) ≡ a / 64 * 64
bit_and-clear_six a h = omega (
  arith,
  bit_and_digit a (2 ^ 64 - 64),
  bit_and_digit (a / 2) (2 ^ 63 - 32),
  bit_and_digit (a / 2 / 2) (2 ^ 62 - 16),
  bit_and_digit (a / 2 / 2 / 2) (2 ^ 61 - 8),
  bit_and_digit (a / 2 / 2 / 2 / 2) (2 ^ 60 - 4),
  bit_and_digit (a / 2 / 2 / 2 / 2 / 2) (2 ^ 59 - 2),
  bit_and-low_mask 58 (a / 2 / 2 / 2 / 2 / 2 / 2),
)
