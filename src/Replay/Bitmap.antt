-- ===== src/Replay/Bitmap.antt =====
-- What `shift_up` does to each place of the bitmap.
use vibe_vpn.Base.{
  ℕ, zero, suc, ◌+◌, ◌-◌, ◌*◌, ◌/◌, ◌%◌, ◌^◌, ◌<◌, ◌≤◌, ◌≡◌, refl, Bool, false, List, ltb, leb,
  if◌then◌else◌, length, set, get_or, All, All-get_or, length-set, get_or-set_self, get_or-set_ne,
  get_or-replicate, lt→ltb, length-replicate, Bool-cases, inl, inr, arith, ◌∙◌,
}
use vibe_vpn.Base.Bits.{
  test_bit, test_bit-zero, test_bit-bit_or, test_bit-mul_pow, test_bit-div_pow, test_bit-mod_pow,
  test_bit-ge,
}
use vibe_vpn.Replay.{marked, shifted_word, shift_loop, shift_up}

pub length-shift_loop :
    (k words rem : ℕ) (bits : List ℕ) → length (shift_loop k words rem bits) ≡ length bits
unfolding shift_loop
length-shift_loop zero words rem bits = refl
length-shift_loop (suc k) words rem bits =
    length-shift_loop k words rem (set bits k (shifted_word bits words rem k)) ∙ length-set bits k _

-- A write at or above `k` is not seen by the words below `k`.
shifted_word-set :
    (bits : List ℕ) (words rem i k v : ℕ)
    → i < k
    → shifted_word (set bits k v) words rem i ≡ shifted_word bits words rem i
unfolding shifted_word
shifted_word-set bits words rem i k v h = rw (
  get_or-set_ne bits k (i - words) v 0 (omega arith),
  get_or-set_ne bits k (i - words - 1) v 0 (omega arith),
)

-- The loop in place computes every word from the old bitmap.
get_or-shift_loop :
    (k words rem : ℕ) (bits : List ℕ) (i : ℕ)
    → k ≤ length bits
    → get_or (shift_loop k words rem bits) i 0
      ≡ (if ltb i k then shifted_word bits words rem i else get_or bits i 0)
unfolding shift_loop
get_or-shift_loop zero words rem bits i h = ground arith
get_or-shift_loop (suc k) words rem bits i h = ground (
  arith,
  get_or-shift_loop k words rem (set bits k (shifted_word bits words rem k)) i,
  length-set bits k (shifted_word bits words rem k),
  shifted_word-set bits words rem i k (shifted_word bits words rem k),
  get_or-set_self bits k (shifted_word bits words rem k) 0,
  get_or-set_ne bits k i (shifted_word bits words rem k) 0,
)

-- The two parts of a word: what stays in its word, and what comes over from the word below.
low_part :
    (v rem b : ℕ)
    → b < 64
    → test_bit (v * 2 ^ rem % 2 ^ 64) b ≡ (if ltb b rem then false else test_bit v (b - rem))
low_part v rem b h =
    rw (test_bit-mod_pow 64 (v * 2 ^ rem) b, test_bit-mul_pow rem v b) (ground arith)

high_part :
    (v rem b : ℕ)
    → v < 2 ^ 64
    → 0 < rem
    → rem < 64
    → test_bit (v / 2 ^ (64 - rem)) b ≡ (if ltb b rem then test_bit v (64 - rem + b) else false)
high_part v rem b hv h0 h1 =
    rw (test_bit-div_pow (64 - rem) v b) (ground (arith, test_bit-ge 64 v (64 - rem + b) hv))

pub marked-eq :
    (bits : List ℕ) (p q r : ℕ)
    → p ≡ 64 * q + r
    → r < 64
    → marked bits p ≡ test_bit (get_or bits q 0) r
marked-eq bits p q r e h =
    let d : p / 64 ≡ q = omega arith in let m : p % 64 ≡ r = omega arith in rw (d, m)

-- The old bit that ends up at digit `b` of word `i`.
abbrev moved : List ℕ → ℕ → ℕ → ℕ → ℕ → Bool
moved bits words rem i b =
    if ltb (64 * i + b) (64 * words + rem)
    then false
    else marked bits (64 * i + b - (64 * words + rem))

moved_low :
    (bits : List ℕ) (words rem i b : ℕ)
    → rem < 64
    → b < 64
    → rem ≤ b
    → moved bits words rem i b
      ≡ (if leb words i then test_bit (get_or bits (i - words) 0) (b - rem) else false)
moved_low bits words rem i b hr hb h =
    ground (arith, marked-eq bits (64 * i + b - (64 * words + rem)) (i - words) (b - rem))

moved_high :
    (bits : List ℕ) (words rem i b : ℕ)
    → rem < 64
    → b < rem
    → moved bits words rem i b ≡ (
        if leb (words + 1) i
        then test_bit (get_or bits (i - words - 1) 0) (64 - rem + b)
        else false)
moved_high bits words rem i b hr h =
    ground (arith, marked-eq bits (64 * i + b - (64 * words + rem)) (i - words - 1) (64 - rem + b))

test_bit-shifted_word :
    (bits : List ℕ) (words rem i b : ℕ)
    → All (λ x. x < 2 ^ 64) bits
    → rem < 64
    → b < 64
    → test_bit (shifted_word bits words rem i) b ≡ moved bits words rem i b
unfolding shifted_word
test_bit-shifted_word bits words rem i b all hr hb = ground (
  arith,
  moved_low bits words rem i b,
  moved_high bits words rem i b,
  test_bit-zero b,
  low_part 0 rem b,
  test_bit-zero (b - rem),
  low_part (get_or bits (i - words) 0) rem b,
  high_part (get_or bits (i - words - 1) 0) rem b
      (All-get_or (λ x. x < 2 ^ 64) bits (i - words - 1) 0 all (omega arith)),
  test_bit-bit_or b (0 * 2 ^ rem % 2 ^ 64) (get_or bits (i - words - 1) 0 / 2 ^ (64 - rem)),
  test_bit-bit_or b (get_or bits (i - words) 0 * 2 ^ rem % 2 ^ 64)
      (get_or bits (i - words - 1) 0 / 2 ^ (64 - rem)),
)

pub length-shift_up : (bits : List ℕ) (n : ℕ) → length (shift_up bits n) ≡ length bits
unfolding shift_up
length-shift_up bits n = ground (
  arith,
  length-replicate {A = ℕ} (length bits) 0,
  length-shift_loop (length bits) (n / 64) (n % 64) bits,
)

-- Every place of the shifted bitmap holds the mark that stood `n` places below it, and the `n`
-- lowest places are clear; marks pushed past the top are dropped.
pub marked-shift_up :
    (bits : List ℕ) (n p : ℕ)
    → All (λ x. x < 2 ^ 64) bits
    → p < 64 * length bits
    → marked (shift_up bits n) p ≡ (if ltb p n then false else marked bits (p - n))
unfolding shift_up
marked-shift_up bits n p all h = elim (Bool-cases (leb (length bits) (n / 64))) [
  | inl far ↦
      rw (far, get_or-replicate {A = ℕ} (length bits) (p / 64) 0, test_bit-zero (p % 64))
        (ground arith)
  | inr near ↦
      rw
        (
          near,
          get_or-shift_loop (length bits) (n / 64) (n % 64) bits (p / 64) (omega arith),
          lt→ltb (p / 64) (length bits) (omega arith),
          test_bit-shifted_word bits (n / 64) (n % 64) (p / 64) (p % 64) all (omega arith)
              (omega arith),
        )
        (ground arith)
]
