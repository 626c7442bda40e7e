-- ===== src/Session/Stats.antt =====
-- `recordSize`, `RecordRTT` and `RTTBuckets` of internal/session/stats.go. The duration of a round
-- trip is in nanoseconds; the source divides it by a million as a float64, which for durations of
-- less than 2^53 ns compares with a threshold as the integers do.
mod Tests
use vibe_vpn.Base.{
  ℕ, zero, suc, ◌+◌, ◌*◌, ◌^◌, ◌≡◌, ◌≤◌, refl, sym, ◌∙◌, Bool, true, false, ltb, leb, if◌then◌else◌,
  List, [], ◌∷◌, length, map, ℤ, pos, pos_part, arith,
}

-- The histogram of sizes.
pub record Sizes : Type 0 where
  pub le64 : ℕ
  pub le256 : ℕ
  pub le1024 : ℕ
  pub le1500 : ℕ
  pub gt1500 : ℕ

abbrev pub no_sizes : Sizes
no_sizes = record { le64 = 0; le256 = 0; le1024 = 0; le1500 = 0; gt1500 = 0 }

unfoldable pub count_size : Sizes → ℕ → Sizes
count_size s n =
    if leb n 64
    then record s { le64 = s.le64 + 1 }
    else if leb n 256
    then record s { le256 = s.le256 + 1 }
    else if leb n 1024
    then record s { le1024 = s.le1024 + 1 }
    else if leb n 1500
    then record s { le1500 = s.le1500 + 1 }
    else record s { gt1500 = s.gt1500 + 1 }

unfoldable pub count_sizes : Sizes → List ℕ → Sizes
count_sizes s [] = s
count_sizes s (n ∷ ns) = count_sizes (count_size s n) ns

abbrev pub rtt_thresholds_ms : List ℕ
rtt_thresholds_ms = 10 ∷ 25 ∷ 50 ∷ 100 ∷ 250 ∷ 500 ∷ 1000 ∷ 2000 ∷ 5000 ∷ []

-- A bucket with its threshold, and a sample.
abbrev pub within : ℤ → ℕ → Bool
within d ms = leb (pos_part d) (ms * 10 ^ 6)

unfoldable pub count_rtt : ℤ → List ℕ → List ℕ → List ℕ
count_rtt d (b ∷ bs) (t ∷ ts) =
    let rest = count_rtt d bs ts in if within d t then (b + 1) ∷ rest else b ∷ rest
count_rtt d bs [] = bs
count_rtt d [] (t ∷ ts) = []

pub record Rtt : Type 0 where
  pub buckets : List ℕ
  pub last_rtt : ℤ

abbrev pub no_rtt : Rtt
no_rtt = record { buckets = map (λ (t : ℕ). 0) rtt_thresholds_ms; last_rtt = pos 0 }

unfoldable pub record_rtt : Rtt → ℤ → Rtt
unfolding count_rtt
record_rtt s d = record { buckets = count_rtt d s.buckets rtt_thresholds_ms; last_rtt = d }

unfoldable pub record_rtts : Rtt → List ℤ → Rtt
unfolding record_rtt
record_rtts s [] = s
record_rtts s (d ∷ ds) = record_rtts (record_rtt s d) ds

-- How many of the samples are not above the threshold.
unfoldable count_within : ℕ → List ℤ → ℕ
count_within t [] = 0
count_within t (d ∷ ds) = let rest = count_within t ds in if within d t then rest + 1 else rest

-- The buckets of the samples, each counted by itself.
unfoldable histogram : List ℤ → List ℕ → List ℕ
unfolding count_within
histogram ds [] = []
histogram ds (t ∷ ts) = count_within t ds ∷ histogram ds ts

-- The buckets with each raised by the histogram of the samples.
unfoldable raised : List ℕ → List ℤ → List ℕ → List ℕ
raised bs ds [] = bs
raised [] ds (t ∷ ts) = []
raised (b ∷ bs) ds (t ∷ ts) = (b + count_within t ds) ∷ raised bs ds ts

raised-count_rtt :
    (d : ℤ) (ds : List ℤ) (bs ts : List ℕ)
    → raised (count_rtt d bs ts) ds ts ≡ raised bs (d ∷ ds) ts
unfolding raised count_rtt count_within
raised-count_rtt d ds bs [] = refl
raised-count_rtt d ds [] (t ∷ ts) = refl
raised-count_rtt d ds (b ∷ bs) (t ∷ ts) = ground (arith, raised-count_rtt d ds bs ts)

raised_none : (bs ts : List ℕ) → raised bs [] ts ≡ bs
unfolding raised count_within
raised_none bs [] = refl
raised_none [] (t ∷ ts) = refl
raised_none (b ∷ bs) (t ∷ ts) = ground (arith, raised_none bs ts)

record_rtts-raised :
    (ds : List ℤ) (s : Rtt) → (record_rtts s ds).buckets ≡ raised s.buckets ds rtt_thresholds_ms
unfolding record_rtts
record_rtts-raised [] s = sym (raised_none s.buckets rtt_thresholds_ms)
record_rtts-raised (d ∷ ds) s =
    record_rtts-raised ds (record_rtt s d) ∙ raised-count_rtt d ds s.buckets rtt_thresholds_ms

raised_zeros : (ds : List ℤ) (ts : List ℕ) → raised (map (λ (t : ℕ). 0) ts) ds ts ≡ histogram ds ts
unfolding raised histogram
raised_zeros ds [] = refl
raised_zeros ds (t ∷ ts) = ground (arith, raised_zeros ds ts)

-- What the histogram should say, in nanoseconds: how many samples took no longer.
abbrev pub rtt_thresholds_ns : List ℕ
rtt_thresholds_ns =
    10000000 ∷ 25000000 ∷ 50000000 ∷ 100000000 ∷ 250000000 ∷ 500000000 ∷ 1000000000 ∷ 2000000000
    ∷ 5000000000 ∷ []

unfoldable pub samples_up_to : ℕ → List ℤ → ℕ
samples_up_to ns [] = 0
samples_up_to ns (d ∷ ds) =
    let rest = samples_up_to ns ds in if ltb ns (pos_part d) then rest else rest + 1

-- Each bucket has at least as much as the one before.
abbrev pub IsCumulative : ℕ → List ℕ → Type 0
IsCumulative least [] = Unit
IsCumulative least (b ∷ bs) = (least ≤ b) × IsCumulative b bs

count_within-samples_up_to :
    (t : ℕ) (ds : List ℤ) → count_within t ds ≡ samples_up_to (t * 10 ^ 6) ds
unfolding count_within samples_up_to
count_within-samples_up_to t [] = refl
count_within-samples_up_to t (d ∷ ds) = ground (arith, count_within-samples_up_to t ds)

histogram-samples_up_to :
    (ds : List ℤ) (ts : List ℕ)
    → histogram ds ts ≡ map (λ ns. samples_up_to ns ds) (map (λ t. t * 10 ^ 6) ts)
unfolding histogram
histogram-samples_up_to ds [] = refl
histogram-samples_up_to ds (t ∷ ts) =
    ground (arith, count_within-samples_up_to t ds, histogram-samples_up_to ds ts)

samples_up_to_le : (a b : ℕ) (ds : List ℤ) → a ≤ b → samples_up_to a ds ≤ samples_up_to b ds
unfolding samples_up_to
samples_up_to_le a b [] h = omega arith
samples_up_to_le a b (d ∷ ds) h = ground (arith, samples_up_to_le a b ds h)

samples-IsCumulative :
    (ds : List ℤ) (a : ℕ) (ts : List ℕ)
    → IsCumulative a ts
    → IsCumulative (samples_up_to a ds) (map (λ ns. samples_up_to ns ds) ts)
samples-IsCumulative ds a [] h = tt
samples-IsCumulative ds a (t ∷ ts) h =
    (samples_up_to_le a t ds h.0, samples-IsCumulative ds t ts h.1)

-- After any samples, each bucket counts the samples that took no longer than its threshold in
-- nanoseconds, so that the buckets are cumulative.
pub record_rtts-histogram :
    (ds : List ℤ)
    → ((record_rtts no_rtt ds).buckets ≡ map (λ ns. samples_up_to ns ds) rtt_thresholds_ns)
      × IsCumulative 0 (record_rtts no_rtt ds).buckets
record_rtts-histogram ds =
    let same =
      record_rtts-raised ds no_rtt
      ∙ raised_zeros ds rtt_thresholds_ms
      ∙ histogram-samples_up_to ds rtt_thresholds_ms in
    let rest : List ℕ =
      25000000 ∷ 50000000 ∷ 100000000 ∷ 250000000 ∷ 500000000 ∷ 1000000000 ∷ 2000000000 ∷ 5000000000
      ∷ [] in
    let ascending : IsCumulative 10000000 rest = ground arith in
    (same, rw same (omega arith, samples-IsCumulative ds 10000000 rest ascending))

-- The sum of the five counters.
abbrev pub total : Sizes → ℕ
total s = s.le64 + s.le256 + s.le1024 + s.le1500 + s.gt1500

-- Each packet is counted once.
pub count_sizes-total : (ns : List ℕ) (s : Sizes) → total (count_sizes s ns) ≡ total s + length ns
unfolding count_sizes count_size
count_sizes-total [] s = ground arith
count_sizes-total (n ∷ ns) s = ground (arith, count_sizes-total ns (count_size s n))
