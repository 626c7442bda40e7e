-- ===== src/Framing/Shaping.antt =====
-- The randomness of traffic shaping, and `Shaping.PaddingFor` with its helpers.
use Prim.Native.String.{String}
use text.Mathlib.Text.{◌==◌ as str_eq}
use vibe_vpn.Base.{ℕ, ◌+◌, ◌-◌, ◌*◌, ◌%◌, ◌^◌, ◌&&◌, ltb, leb, if◌then◌else◌, ℤ, pos_part, bit_or}
use vibe_vpn.Framing.{nonce_len, tag_len, max_wire}

-- crypto/rand as an endless sequence of bytes and the number of those already read.
pub record Rng : Type 0 where
  pub bytes : ℕ → ℕ
  pub used : ℕ

-- Four bytes, put together as a number below 2 ^ 32.
abbrev pub random_u32 : Rng → ℕ
random_u32 r =
    bit_or
      (bit_or (bit_or (r.bytes r.used % 2 ^ 8 * 2 ^ 24) (r.bytes (r.used + 1) % 2 ^ 8 * 2 ^ 16))
        (r.bytes (r.used + 2) % 2 ^ 8 * 2 ^ 8))
      (r.bytes (r.used + 3) % 2 ^ 8)

unfoldable pub rand_n : ℕ → Rng → ℕ × Rng
rand_n max r = if leb max 0 then (0, r) else (random_u32 r % max, record r { used = r.used + 4 })

-- int fields may be negative; `pos_part` is 0 then, which is what each guard `> 0` tells apart.
pub record Shaping : Type 0 where
  pub padding : String
  pub pad_to : ℤ
  pub bucket : ℤ
  pub rand_max : ℤ
  pub decoy_interval : ℕ
  pub jitter : ℕ

abbrev pub max_inner : ℕ
max_inner = max_wire - nonce_len - tag_len

record_size : ℕ → Rng → ℕ × Rng
record_size r rng =
    if ltb r 35
    then (let (n, s) = rand_n 97 rng in (53 + n, s))
    else if ltb r 65
    then (let (n, s) = rand_n 250 rng in (150 + n, s))
    else if ltb r 85
    then (let (n, s) = rand_n 400 rng in (400 + n, s))
    else if ltb r 95
    then (let (n, s) = rand_n 400 rng in (800 + n, s))
    else (let (n, s) = rand_n 300 rng in (1200 + n, s))

unfoldable pub web_wire_size : Rng → ℕ × Rng
unfolding record_size
web_wire_size rng = let (r, rng') = rand_n 100 rng in record_size r rng'

-- case "pad". A target below 28 is negative in the source, and 0 here: no plaintext is below it.
pad_case : Shaping → ℕ → ℕ
pad_case s inner_len =
    let asked = pos_part s.pad_to - nonce_len - tag_len in
    let target = if ltb max_inner asked then max_inner else asked in
    if ltb 0 (pos_part s.pad_to)
    then (if ltb inner_len target then target - inner_len else 0)
    else 0

-- case "bucket".
bucket_case : Shaping → ℕ → ℕ
bucket_case s inner_len =
    let bucket = pos_part s.bucket in
    let total = nonce_len + tag_len + inner_len in
    let r = total % bucket in
    let pad = bucket - r in if ltb 0 bucket && ltb 0 r && leb (total + pad) max_wire then pad else 0

-- case "random".
random_case : Shaping → Rng → ℕ × Rng
random_case s rng =
    if ltb 0 (pos_part s.rand_max) then rand_n (pos_part s.rand_max + 1) rng else (0, rng)

-- case "web".
web_case : ℕ → Rng → ℕ × Rng
web_case inner_len rng =
    let least = nonce_len + tag_len + inner_len in
    let (target, rng') = web_wire_size rng in
    if ltb least target && leb target max_wire then (target - least, rng') else rand_n 17 rng'

unfoldable pub padding_for : Shaping → ℕ → Rng → ℕ × Rng
unfolding pad_case bucket_case random_case web_case
padding_for s inner_len rng =
    if str_eq s.padding "pad"
    then (pad_case s inner_len, rng)
    else if str_eq s.padding "bucket"
    then (bucket_case s inner_len, rng)
    else if str_eq s.padding "random"
    then random_case s rng
    else if str_eq s.padding "web"
    then web_case inner_len rng
    else (0, rng)

unfoldable pub wire_len : Shaping → ℕ → Rng → ℕ × Rng
wire_len s inner_len rng =
    let (pad, rng') = padding_for s inner_len rng in (nonce_len + tag_len + inner_len + pad, rng')
