-- ===== src/Replay/Window.antt =====
-- `check` after `add`, for every pair of sequence numbers, and the window's invariant.
use vibe_vpn.Base.{
  ℕ, zero, suc, ◌+◌, ◌-◌, ◌*◌, ◌/◌, ◌%◌, ◌^◌, ◌<◌, ◌≤◌, ◌≡◌, ◌≢◌, refl, bit_and, bit_or, true,
  false, not, ◌&&◌, ◌||◌, List, ltb, leb, ◌==◌, if◌then◌else◌, length, get_or, replicate,
  get_or-set_self, get_or-set_ne, get_or-replicate, arith,
}
use vibe_vpn.Base.Bits.{test_bit, test_bit-zero, test_bit-bit_or, test_bit-mul_pow, bit_and-two_pow}
use vibe_vpn.Replay.{ReplayWindow, IsValid, unanchored, check, add, marked, or_at, shift_up}
use vibe_vpn.Replay.Bitmap.{marked-shift_up, length-shift_up}

test_bit-one : (i : ℕ) → test_bit 1 i ≡ (i == 0)
unfolding test_bit
test_bit-one zero = refl
test_bit-one (suc i) = let e : 1 / 2 ≡ 0 = refl in rw (e, test_bit-zero i) (ground arith)

test_bit-two_pow : (k i : ℕ) → test_bit (1 * 2 ^ k) i ≡ (i == k)
test_bit-two_pow k i = rw (test_bit-mul_pow k 1 i, test_bit-one (i - k)) (ground arith)

-- Setting the mark `q` sets it and nothing else.
pub marked-or_at :
    (bits : List ℕ) (q p : ℕ)
    → q < 64 * length bits
    → marked (or_at bits (q / 64) (1 * 2 ^ (q % 64))) p ≡ (marked bits p || p == q)
marked-or_at bits q p h = ground (
  arith,
  get_or-set_self bits (q / 64) (bit_or (get_or bits (q / 64) 0) (1 * 2 ^ (q % 64))) 0,
  get_or-set_ne bits (q / 64) (p / 64) (bit_or (get_or bits (q / 64) 0) (1 * 2 ^ (q % 64))) 0,
  test_bit-bit_or (p % 64) (get_or bits (q / 64) 0) (1 * 2 ^ (q % 64)),
  test_bit-two_pow (q % 64) (p % 64),
)

-- `bits[0] |= 1` marks place 0.
marked-or_at_zero :
    (bits : List ℕ) (p : ℕ)
    → 0 < length bits
    → marked (or_at bits 0 1) p ≡ (marked bits p || p == 0)
marked-or_at_zero bits p h = marked-or_at bits 0 p (omega arith)

check_lem :
    (w : ReplayWindow) (s : ℕ)
    → w.high ≢ unanchored
    → check w s ≡ (
        if ltb w.high s
        then true
        else if leb w.size (w.high - s)
        then false
        else not (marked w.bits (w.high - s)))
unfolding check
check_lem w s h =
    rw (bit_and-pow ((w.high - s) % 64) (get_or w.bits ((w.high - s) / 64) 0)) (ground arith)
  where
    bit_and-pow : (i x : ℕ) → (bit_and x (1 * 2 ^ i) == 0) ≡ not (test_bit x i)
    bit_and-pow i x = let e : 1 * 2 ^ i ≡ 2 ^ i = omega arith in rw e (bit_and-two_pow i x)

module _ (w : ReplayWindow) (valid : IsValid w) (seq s : ℕ) (in_seq : seq < unanchored) where
  -- The first packet anchors the window at its number: afterwards everything but that number and
  -- what lies `size` or more below it is acceptable.
  pub check-add_first :
      w.high ≡ unanchored → check (add w seq) s ≡ (not (s == seq) && ltb seq (s + w.size))
  unfolding add
  check-add_first e = ground (
    arith,
    check_lem (record w { high = seq; bits = or_at w.bits 0 1 }) s,
    marked-or_at_zero w.bits (seq - s) valid.nonempty,
    valid.fresh e (seq - s),
    valid.sized,
    valid.nonempty,
  )

  -- The mark that the window may hold, at or below the highest number.
  check-marked :
      w.high ≢ unanchored
      → seq ≤ w.high
      → w.high - seq < w.size
      → check
          (record w { bits = or_at w.bits ((w.high - seq) / 64) (1 * 2 ^ ((w.high - seq) % 64)) })
          s
        ≡ (check w s && not (s == seq))
  check-marked e low near =
      rw
        (
          check_lem w s e,
          check_lem
              (record w {
                bits = or_at w.bits ((w.high - seq) / 64) (1 * 2 ^ ((w.high - seq) % 64));
              })
              s e,
        )
        (ground (arith, marked-or_at w.bits (w.high - seq) (w.high - s), valid.sized))

  check-below : w.high ≢ unanchored → check w s ≡ true → w.high < s + w.size
  check-below e h = ground (arith, check_lem w s e, valid.sized, valid.nonempty)

  check-add_low :
      w.high ≢ unanchored → seq ≤ w.high → check (add w seq) s ≡ (check w s && not (s == seq))
  unfolding add
  check-add_low e low = ground (arith, check-marked e low, check_lem w seq e)

  check-slid :
      w.high ≢ unanchored
      → w.high < seq
      → seq < w.high + w.size
      → check (record w { bits = or_at (shift_up w.bits (seq - w.high)) 0 1; high = seq }) s
        ≡ (check w s && not (s == seq) && ltb seq (s + w.size))
  check-slid e above near =
      rw
        (
          check_lem w s e,
          check_lem (record w { bits = or_at (shift_up w.bits (seq - w.high)) 0 1; high = seq }) s
              (omega arith),
        )
        (ground (
          arith,
          marked-or_at_zero (shift_up w.bits (seq - w.high)) (seq - s),
          marked-shift_up w.bits (seq - w.high) (seq - s) valid.words,
          length-shift_up w.bits (seq - w.high),
          valid.sized,
          valid.nonempty,
        ))

  check-add_high :
      w.high ≢ unanchored
      → w.high < seq
      → seq < w.high + w.size
      → check (add w seq) s ≡ (check w s && not (s == seq) && ltb seq (s + w.size))
  unfolding add
  check-add_high e above near = ground (arith, check-slid e above near)

  -- A number that does not jump over the whole window: afterwards exactly that number is no
  -- longer acceptable, besides what was not acceptable before and what has left the window.
  pub check-add :
      w.high ≢ unanchored
      → seq < w.high + w.size
      → check (add w seq) s
        ≡ (check w s && not (s == seq) && ltb (if ltb w.high seq then seq else w.high) (s + w.size))
  check-add e h = ground (arith, check-add_low e, check-add_high e, check-below e)

  -- A number at least `size` above the highest clears the bitmap and sets no mark: every number
  -- within the window below it is acceptable, and so is the number itself.
  pub check-add_jump :
      w.high ≢ unanchored → w.high + w.size ≤ seq → check (add w seq) s ≡ ltb seq (s + w.size)
  unfolding add
  check-add_jump e h = ground (
    arith,
    check_lem (record w { bits = replicate (length w.bits) 0; high = seq }) s,
    get_or-replicate {A = ℕ} (length w.bits) ((seq - s) / 64) 0,
    test_bit-zero ((seq - s) % 64),
    valid.sized,
    valid.nonempty,
  )
