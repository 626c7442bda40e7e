-- ===== src/Session/Random/Tests.antt =====
-- The interval between decoys, at the two seconds that the setup configures.
use vibe_vpn.Base.{ℕ, ◌+◌, ◌-◌, ◌/◌, ◌^◌, ◌≡◌, ◌≤◌, pos_part, neg_part, sub_ℕ, arith}
use vibe_vpn.Session.Random.{decoy_jitter, decoy_jitter_bounds}

abbrev two_seconds : ℕ
two_seconds = 2000000000

decoy_jitter_bounds_example :
    (pos_part (decoy_jitter two_seconds 7) ≤ two_seconds / 2 + (two_seconds - 1))
    × (neg_part (decoy_jitter two_seconds 7) ≤ two_seconds - 1 - two_seconds / 2)
    × (decoy_jitter two_seconds (2 ^ 64 - (two_seconds - 1))
        ≡ sub_ℕ (two_seconds / 2) (two_seconds - 1))
decoy_jitter_bounds_example =
    decoy_jitter_bounds two_seconds 7 (omega arith) (omega arith) (omega arith)
