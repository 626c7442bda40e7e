-- ===== src/Base/Bits/Shift.antt =====
-- Shifts and truncation, digit by digit.
use Prim.Native.Nat.{ℕ, zero, suc, ◌+◌, ◌-◌, ◌*◌, ◌/◌, ◌%◌, ◌^◌, ◌≤◌, ◌<◌}
use mathlib.Core.Path.{◌≡◌, sym, ap}
use mathlib.Core.Bool.{false, ◌&&◌}
use native.Mathlib.Nat.{pow-suc, mul-one, mul_comm, div-div-eq-div-mul}
use native.Mathlib.Omega.{arith}
use vibe_vpn.Base.Tests.{ltb, if◌then◌else◌}
use vibe_vpn.Base.Bits.Step.{test_bit, test_bit-zero, mod-two_pow_suc}

mul-two_pow_suc : (v r : ℕ) → v * 2 ^ suc r ≡ v * 2 ^ r * 2
mul-two_pow_suc v r = omega (arith, ap (λ (t : ℕ). v * t) (pow-suc 2 r))

sub_suc : (i r : ℕ) → suc i - suc r ≡ i - r
sub_suc i r = omega arith

pub test_bit-mul_pow :
    (r v i : ℕ) → test_bit (v * 2 ^ r) i ≡ (if ltb i r then false else test_bit v (i - r))
unfolding test_bit
test_bit-mul_pow zero v i = rw mul-one (ground arith)
test_bit-mul_pow (suc r) v zero =
    let e : v * 2 ^ suc r ≡ v * 2 ^ r * 2 = mul-two_pow_suc v r in rw e (ground arith)
test_bit-mul_pow (suc r) v (suc i) =
    let e : v * 2 ^ suc r ≡ v * 2 ^ r * 2 = mul-two_pow_suc v r in
    let h : v * 2 ^ suc r / 2 ≡ v * 2 ^ r = omega arith in
    rw h (rw (test_bit-mul_pow r v i) (ground (arith, sub_suc i r)))

pub test_bit-div_pow : (k x i : ℕ) → test_bit (x / 2 ^ k) i ≡ test_bit x (k + i)
unfolding test_bit
test_bit-div_pow zero x i =
    let e : x / 2 ^ 0 ≡ x = omega arith in let h : 0 + i ≡ i = omega arith in rw (e, h)
test_bit-div_pow (suc k) x i =
    let h : suc k + i ≡ suc (k + i) = omega arith in
    let e : x / 2 ^ suc k ≡ x / 2 / 2 ^ k =
      rw (pow-suc 2 k, mul_comm (2 ^ k) 2) (sym (div-div-eq-div-mul x 2 (2 ^ k))) in
    rw (h, e) (test_bit-div_pow k (x / 2) i)

pub test_bit-mod_pow : (w x i : ℕ) → test_bit (x % 2 ^ w) i ≡ (ltb i w && test_bit x i)
unfolding test_bit
test_bit-mod_pow zero x i =
    let e : x % 2 ^ 0 ≡ 0 = omega arith in rw e (rw (test_bit-zero i) (ground arith))
test_bit-mod_pow (suc w) x zero = ground (arith, mod-two_pow_suc w x)
test_bit-mod_pow (suc w) x (suc i) =
    let e : x % 2 ^ suc w / 2 ≡ x / 2 % 2 ^ w = omega (arith, mod-two_pow_suc w x) in
    rw e (rw (test_bit-mod_pow w (x / 2) i) (ground arith))

-- No digit stands at or above the width.
pub test_bit-ge : (w x i : ℕ) → x < 2 ^ w → w ≤ i → test_bit x i ≡ false
unfolding test_bit
test_bit-ge zero x i h k = let e : x ≡ 0 = omega arith in rw e (test_bit-zero i)
test_bit-ge (suc w) x zero h k = absurd (omega arith)
test_bit-ge (suc w) x (suc i) h k =
    let p : 2 ^ suc w ≡ 2 ^ w * 2 = pow-suc 2 w in
    test_bit-ge w (x / 2) i (omega arith) (omega arith)
