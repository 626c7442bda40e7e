-- ===== src/Framing/Padding.antt =====
-- What each shaping policy makes of the size of a frame.
use Prim.Native.String.{String}
use text.Mathlib.Text.{◌==◌ as str_eq}
use text.Mathlib.TextEquality.{eq_iff}
use native.Mathlib.Nat.{div-add-mod, mul-mod_left}
use vibe_vpn.Base.{
  ◌≢◌, ℕ, ◌+◌, ◌-◌, ◌*◌, ◌/◌, ◌%◌, ◌≤◌, ◌<◌, ◌≡◌, ◌⊎◌, if◌then◌else◌, pos_part, arith, min, max,
}
use vibe_vpn.Framing.{max_wire}
use vibe_vpn.Framing.Shaping.{Rng, Shaping, rand_n, web_wire_size, padding_for, wire_len}

-- A random number lies below its bound, and costs four random bytes.
pub rand_n-lt : (max : ℕ) (rng : Rng) → 0 < max → (rand_n max rng).0 < max
unfolding rand_n
rand_n-lt max rng h = ground arith

-- A sampled TLS record has 53 to 1499 bytes.
pub web_wire_size_bounds :
    (rng : Rng) → (53 ≤ (web_wire_size rng).0) × ((web_wire_size rng).0 ≤ 1499)
unfolding web_wire_size
web_wire_size_bounds rng = ground (
  arith,
  rand_n-lt 97 (rand_n 100 rng).1,
  rand_n-lt 250 (rand_n 100 rng).1,
  rand_n-lt 400 (rand_n 100 rng).1,
  rand_n-lt 300 (rand_n 100 rng).1,
)

-- "pad": every frame has the configured wire size, cut to the largest datagram, unless it is
-- larger than that without padding.
pub wire_len-pad :
    (s : Shaping) (inner_len : ℕ) (rng : Rng)
    → s.padding ≡ "pad"
    → (wire_len s inner_len rng).0 ≡ max (28 + inner_len) (min (pos_part s.pad_to) max_wire)
unfolding wire_len padding_for
wire_len-pad s inner_len rng h = ground (arith, eq_iff s.padding "pad")

round_up : (t b : ℕ) → 0 < b → (t + (b - t % b)) % b ≡ 0
round_up t b h =
    let e : t + (b - t % b) ≡ (t / b + 1) * b = grind (arith, div-add-mod t b) in
    rw e (mul-mod_left (t / b + 1) b)

names_differ : ◌≢◌ {A = String} "bucket" "pad"
names_differ = ground (arith, eq_iff "bucket" "pad")

-- "bucket": the wire size is a multiple of the bucket, by less than a bucket of padding; only
-- where that multiple exceeds the largest datagram is the frame sent without padding.
pub wire_len-bucket :
    (s : Shaping) (inner_len : ℕ) (rng : Rng)
    → s.padding ≡ "bucket"
    → 0 < pos_part s.bucket
    → let size = (wire_len s inner_len rng).0 in
      (((size % pos_part s.bucket ≡ 0) × (size < 28 + inner_len + pos_part s.bucket))
        ⊎ ((size ≡ 28 + inner_len)
            × (max_wire < size + (pos_part s.bucket - size % pos_part s.bucket))))
      × (28 + inner_len ≤ size)
unfolding wire_len padding_for
wire_len-bucket s inner_len rng h some_bucket = ground (
  arith,
  eq_iff s.padding "bucket",
  eq_iff s.padding "pad",
  names_differ,
  round_up (28 + inner_len) (pos_part s.bucket),
)

-- How much a policy may add over the largest datagram: "random" and the fallback of "web" do not
-- look at it.
abbrev pub slack : Shaping → ℕ
slack s =
    if str_eq s.padding "random"
    then pos_part s.rand_max
    else if str_eq s.padding "web"
    then 16
    else 0

-- A plaintext that leaves room for the slack of its policy gets a padding that fits a datagram.
pub wire_len-fits :
    (s : Shaping) (inner_len : ℕ) (rng : Rng)
    → 28 + inner_len + slack s ≤ max_wire
    → (wire_len s inner_len rng).0 ≤ max_wire
unfolding wire_len padding_for
wire_len-fits s inner_len rng h =
    ground (arith, rand_n-lt (pos_part s.rand_max + 1) rng, rand_n-lt 17 (web_wire_size rng).1)
