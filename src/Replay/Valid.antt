-- ===== src/Replay/Valid.antt =====
-- The invariant of the window: it holds of a new window and is kept by `add`.
use vibe_vpn.Base.{
  ℕ, ◌-◌, ◌*◌, ◌/◌, ◌%◌, ◌^◌, ◌<◌, ◌≤◌, ◌≡◌, ◌≢◌, bit_and, List, ltb, leb, ◌==◌, if◌then◌else◌,
  length, All, length-set, get_or-replicate, length-replicate, Bool-cases, inl, inr, arith,
  All-replicate, ◌∙◌,
}
use vibe_vpn.Base.Bits.{test_bit-zero, bit_and-clear_six}
use vibe_vpn.Replay.{
  ReplayWindow, IsValid, unanchored, new_replay_window, add, add_within, add_above, shift_up,
}
use vibe_vpn.Replay.Bitmap.{length-shift_up}
use vibe_vpn.Replay.Bound.{IsWord, or_at-IsWord, shift_up-IsWord, two_pow-lt_word}

-- Every size below 2 ^ 63 gives a valid window, and NewReplayWindow rounds as it says.
pub new_replay_window-IsValid : (n : ℕ) → n < 2 ^ 63 → IsValid (new_replay_window n)
unfolding new_replay_window
new_replay_window-IsValid n h =
    let size : ℕ = if ltb n 64 then 64 else n in
    let in_range : (64 ≤ size) × (size < 2 ^ 63) = ground arith in
    let rounded : bit_and size (2 ^ 64 - 64) ≡ size / 64 * 64 =
      bit_and-clear_six size (omega arith) in
    rw rounded (record {
      sized = omega (arith, length-replicate {A = ℕ} (size / 64 * 64 / 64) 0);
      nonempty = omega (arith, length-replicate {A = ℕ} (size / 64 * 64 / 64) 0);
      small = omega arith;
      words = All-replicate IsWord (size / 64 * 64 / 64) 0 (omega arith);
      fresh = λ _ p.
          rw (get_or-replicate {A = ℕ} (size / 64 * 64 / 64) (p / 64) 0) (test_bit-zero (p % 64));
    })

-- A window with its bitmap rewritten in place and a known highest number.
rewritten-IsValid :
    (w : ReplayWindow) (bits : List ℕ) (high : ℕ)
    → IsValid w
    → high ≢ unanchored
    → length bits ≡ length w.bits
    → All IsWord bits
    → IsValid (record w { high = high; bits = bits })
rewritten-IsValid w bits high v h e all = record {
  sized = omega (arith, v.sized);
  nonempty = omega (arith, v.nonempty);
  small = v.small;
  words = all;
  fresh = λ f p. absurd (h f);
}

add_within-IsValid :
    (w : ReplayWindow) (diff : ℕ) → IsValid w → w.high ≢ unanchored → IsValid (add_within w diff)
unfolding add_within
add_within-IsValid w diff v h = elim (Bool-cases (ltb diff w.size)) [
  | inl near ↦ rw near (
      rewritten-IsValid w _ w.high v h (length-set w.bits (diff / 64) _)
        (or_at-IsWord w.bits (diff / 64) _ v.words (two_pow-lt_word (diff % 64) (omega arith))))
  | inr far ↦ rw far v
]

add_above-IsValid :
    (w : ReplayWindow) (seq slide : ℕ)
    → IsValid w
    → seq ≢ unanchored
    → IsValid (add_above w seq slide)
unfolding add_above
add_above-IsValid w seq slide v h = elim (Bool-cases (leb w.size slide)) [
  | inl far ↦ rw far (
      rewritten-IsValid w _ seq v h (length-replicate (length w.bits) 0)
        (All-replicate IsWord (length w.bits) 0 (omega arith)))
  | inr near ↦ rw near (
      rewritten-IsValid w _ seq v h
        (length-set (shift_up w.bits slide) 0 _ ∙ length-shift_up w.bits slide)
        (or_at-IsWord (shift_up w.bits slide) 0 1 (shift_up-IsWord w.bits slide v.words)
          (omega arith)))
]

-- Recording any sequence number keeps the window valid.
pub add-IsValid : (w : ReplayWindow) (seq : ℕ) → seq < unanchored → IsValid w → IsValid (add w seq)
unfolding add
add-IsValid w seq in_seq v = elim (Bool-cases (w.high == unanchored)) [
  | inl first ↦ rw first (
      rewritten-IsValid w _ seq v (omega arith) (length-set w.bits 0 _)
        (or_at-IsWord w.bits 0 1 v.words (omega arith)))
  | inr later ↦ rw later (elim (Bool-cases (leb seq w.high)) [
    | inl low ↦ rw low (add_within-IsValid w (w.high - seq) v (ground arith))
    | inr high ↦ rw high (add_above-IsValid w seq (seq - w.high) v (omega arith))
  ])
]
