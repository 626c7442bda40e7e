-- ===== src/Session/Stats/Tests.antt =====
-- Three round trips.
use vibe_vpn.Base.{◌*◌, ◌^◌, ◌≡◌, refl, List, [], ◌∷◌, map, ℤ, pos}
use vibe_vpn.Session.Stats.{
  no_rtt, record_rtt, record_rtts, samples_up_to, IsCumulative, rtt_thresholds_ns,
  record_rtts-histogram, count_rtt,
}

abbrev samples : List ℤ
samples = pos (12 * 10 ^ 6) ∷ pos (10 * 10 ^ 6) ∷ pos (10 ^ 10) ∷ []

counted : (record_rtts no_rtt samples).buckets ≡ 1 ∷ 2 ∷ 2 ∷ 2 ∷ 2 ∷ 2 ∷ 2 ∷ 2 ∷ 2 ∷ []
unfolding record_rtts record_rtt count_rtt
counted = refl

record_rtts-histogram_example :
    ((record_rtts no_rtt samples).buckets ≡ map (λ ns. samples_up_to ns samples) rtt_thresholds_ns)
    × IsCumulative 0 (record_rtts no_rtt samples).buckets
record_rtts-histogram_example = record_rtts-histogram samples
