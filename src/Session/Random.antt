-- ===== src/Session/Random.antt =====
-- The random numbers of internal/session: `cryptoRandInt` of client.go, `crandInt63n` and
-- `decoyJitter` of session.go. The 64 bits that the generator gives are a number below 2^64, which
-- int64 reads with a sign.
mod Tests
use native.Mathlib.Nat.{mod-eq_of_lt}
use vibe_vpn.Base.{
  ℕ, ◌+◌, ◌-◌, ◌/◌, ◌%◌, ◌^◌, ◌≡◌, ◌≤◌, ◌<◌, ◌==◌, ltb, leb, if◌then◌else◌, ℤ, pos, pos_part,
  neg_part, sub_ℕ, arith,
}

-- int64(v) % n: the remainder has the sign of the dividend.
unfoldable pub crand_int63n : ℕ → ℕ → ℤ
crand_int63n n v = if ltb v (2 ^ 63) then pos (v % n) else sub_ℕ 0 ((2 ^ 64 - v) % n)

-- An int64 that wraps around, for what is less than 2^64 away from its range.
abbrev pub wrap_int64 : ℤ → ℤ
wrap_int64 z =
    if leb (2 ^ 63) (pos_part z)
    then sub_ℕ (pos_part z) (2 ^ 64)
    else if ltb (2 ^ 63) (neg_part z)
    then pos (2 ^ 64 - neg_part z)
    else z

-- Durations are in nanoseconds; `base` is not negative. The addition is that of int64.
unfoldable pub decoy_jitter : ℕ → ℕ → ℤ
unfolding crand_int63n
decoy_jitter base v =
    let r = crand_int63n base v in
    if base == 0 then pos 0 else wrap_int64 (sub_ℕ (base / 2 + pos_part r) (neg_part r))

-- The negation of the least int64 is itself.
unfoldable pub crypto_rand_int : ℕ → ℕ → ℤ
crypto_rand_int n v =
    if ltb v (2 ^ 63)
    then pos (v % n)
    else if v == 2 ^ 63
    then sub_ℕ 0 (2 ^ 63 % n)
    else pos ((2 ^ 64 - v) % n)

-- 16+cryptoRandInt(64), the length of a decoy.
unfoldable pub decoy_len : ℕ → ℕ
unfolding crypto_rand_int
decoy_len v = 16 + pos_part (crypto_rand_int 64 v) - neg_part (crypto_rand_int 64 v)

-- A decoy has between 16 and 79 bytes, whatever the generator gives.
pub decoy_len_bounds : (v : ℕ) → v < 2 ^ 64 → (16 ≤ decoy_len v) × (decoy_len v ≤ 79)
unfolding decoy_len crypto_rand_int
decoy_len_bounds v h = ground arith

-- Where half the base and the largest draw add up to an int64: the interval to the next decoy lies
-- between base/2 - (base - 1) and base/2 + (base - 1), and the lower end, which is negative from a
-- base of 3 on, is reached.
pub decoy_jitter_bounds :
    (base v : ℕ)
    → 1 < base
    → base / 2 + (base - 1) < 2 ^ 63
    → v < 2 ^ 64
    → (pos_part (decoy_jitter base v) ≤ base / 2 + (base - 1))
      × (neg_part (decoy_jitter base v) ≤ base - 1 - base / 2)
      × (decoy_jitter base (2 ^ 64 - (base - 1)) ≡ sub_ℕ (base / 2) (base - 1))
unfolding decoy_jitter crand_int63n
decoy_jitter_bounds base v p h w =
    let small : (base - 1) % base ≡ base - 1 = mod-eq_of_lt (omega arith) in
    let least : 2 ^ 64 - (2 ^ 64 - (base - 1)) ≡ base - 1 = omega arith in
    (ground arith, ground arith, ground (arith, small, least))
