-- ===== src/Replay/History.antt =====
-- The window over a whole session: `open` of internal/session/session.go asks `check` and, where
-- it agrees, calls `add`.
use vibe_vpn.Base.{
  ℕ, ◌+◌, ◌^◌, ◌<◌, ◌≤◌, ◌≡◌, ◌≢◌, refl, Bool, true, false, List, [], ◌∷◌, ◌==◌, if◌then◌else◌, All,
  lt→ltb, arith, ◌∙◌, ap,
}
use vibe_vpn.Replay.{ReplayWindow, IsValid, unanchored, check, add}
use vibe_vpn.Replay.Valid.{add-IsValid}
use vibe_vpn.Replay.Window.{check-add_first, check-add, check-add_jump}

-- One frame whose authentication succeeded: the verdict, and the window after it.
unfoldable pub receive : ReplayWindow → ℕ → ReplayWindow × Bool
receive w seq = if check w seq then (add w seq, true) else (w, false)

unfoldable pub receive_all : ReplayWindow → List ℕ → ReplayWindow
receive_all w [] = w
receive_all w (seq ∷ seqs) = receive_all (receive w seq).0 seqs

-- The numbers that the code can see: the wire carries 32 bits.
abbrev pub InRange : List ℕ → Type 0
InRange = All (λ seq. seq < 2 ^ 32)

pub receive-IsValid :
    (w : ReplayWindow) (seq : ℕ) → seq < 2 ^ 32 → IsValid w → IsValid (receive w seq).0
unfolding receive
receive-IsValid w seq h v = ground (arith, add-IsValid w seq)

rejected-low : (w : ReplayWindow) (s : ℕ) → w.high ≢ unanchored → check w s ≡ false → s ≤ w.high
unfolding check
rejected-low w s later bad = ground arith

rejected-anchored : (w : ReplayWindow) (s : ℕ) → check w s ≡ false → w.high ≢ unanchored
unfolding check
rejected-anchored w s bad = ground arith

add-rejected :
    (w : ReplayWindow) (seq s : ℕ)
    → seq < unanchored
    → IsValid w
    → check w s ≡ false
    → check (add w seq) s ≡ false
add-rejected w seq s h v bad = ground (
  arith,
  check-add w v seq s h,
  check-add_jump w v seq s h,
  rejected-anchored w s bad,
  rejected-low w s,
)

-- A number that the window refuses is refused after any further frame.
pub receive-rejected :
    (w : ReplayWindow) (seq s : ℕ)
    → seq < 2 ^ 32
    → IsValid w
    → check w s ≡ false
    → check (receive w seq).0 s ≡ false
unfolding receive
receive-rejected w seq s h v bad = ground (arith, add-rejected w seq s)

receive_all-rejected :
    (seqs : List ℕ) (w : ReplayWindow) (s : ℕ)
    → InRange seqs
    → IsValid w
    → check w s ≡ false
    → check (receive_all w seqs) s ≡ false
unfolding receive_all
receive_all-rejected [] w s h v bad = bad
receive_all-rejected (seq ∷ seqs) w s h v bad =
    receive_all-rejected seqs (receive w seq).0 s h.1 (receive-IsValid w seq h.0 v)
      (receive-rejected w seq s h.0 v bad)

-- The number does not lie a whole window or more above the highest one so far.
abbrev pub NoJump : ReplayWindow → ℕ → Type 0
NoJump w seq = w.high ≢ unanchored → seq < w.high + w.size

pub receive-marks :
    (w : ReplayWindow) (seq : ℕ)
    → seq < 2 ^ 32
    → IsValid w
    → NoJump w seq
    → check (receive w seq).0 seq ≡ false
unfolding receive
receive-marks w seq h v near = ground (arith, check-add_first w v seq seq, check-add w v seq seq)

receive-refuses : (w : ReplayWindow) (seq : ℕ) → check w seq ≡ false → receive w seq ≡ (w, false)
unfolding receive
receive-refuses w seq e = rw e

-- In a well-formed window, a frame received with a 32-bit number that does not jump over the window,
-- and then any frames at all: a second frame with that number is refused.
pub receive_once :
    (w : ReplayWindow) (seq : ℕ) (seqs : List ℕ)
    → seq < 2 ^ 32
    → InRange seqs
    → IsValid w
    → NoJump w seq
    → (receive (receive_all (receive w seq).0 seqs) seq).1 ≡ false
receive_once w seq seqs h hs v near = rw (
    receive-refuses _ seq (
      receive_all-rejected seqs (receive w seq).0 seq hs (receive-IsValid w seq h v)
        (receive-marks w seq h v near)))

receive-accepts :
    (w : ReplayWindow) (seq : ℕ) → check w seq ≡ true → receive w seq ≡ (add w seq, true)
unfolding receive
receive-accepts w seq e = rw e

check-above :
    (w : ReplayWindow) (seq : ℕ)
    → w.high ≢ unanchored
    → w.high + w.size ≤ seq
    → IsValid w
    → check w seq ≡ true
unfolding check
check-above w seq old far v = ground (arith, v.sized, v.nonempty)

add-jump :
    (w : ReplayWindow) (seq : ℕ)
    → w.high ≢ unanchored
    → w.high + w.size ≤ seq
    → 0 < w.size
    → ((add w seq).high ≡ seq) × ((add w seq).size ≡ w.size)
unfolding add
add-jump w seq old far h = ground arith

-- In a well-formed window that has received a frame, a frame whose 32-bit number lies a whole window
-- or more above the highest is accepted twice, and only from then on refused.
pub receive_jump_replayed :
    (w : ReplayWindow) (seq : ℕ)
    → seq < 2 ^ 32
    → IsValid w
    → w.high ≢ unanchored
    → w.high + w.size ≤ seq
    → let first = receive w seq in
      let second = receive first.0 seq in
      let third = receive second.0 seq in (first.1 ≡ true) × (second.1 ≡ true) × (third.1 ≡ false)
receive_jump_replayed w seq h v old far =
    let (at, size) = add-jump w seq old far (omega (arith, v.sized, v.nonempty)) in
    let one : receive w seq ≡ (add w seq, true) =
      receive-accepts w seq (check-above w seq old far v) in
    let two : receive (add w seq) seq ≡ (add (add w seq) seq, true) =
      receive-accepts (add w seq) seq (
        check-add_jump w v seq seq (omega arith) old far
        ∙ lt→ltb _ _ (omega (arith, v.sized, v.nonempty))) in
    let three : check (receive (add w seq) seq).0 seq ≡ false =
      receive-marks (add w seq) seq h (add-IsValid w seq (omega arith) v)
        (λ _. omega (arith, v.sized, v.nonempty)) in
    rw (one, two) (refl, refl, ap (λ r. r.1) (receive-refuses _ seq (rw two at three)))

-- The highest number so far; 0 before the first.
abbrev pub top : ReplayWindow → ℕ
top w = if w.high == unanchored then 0 else w.high

add-top : (w : ReplayWindow) (seq : ℕ) → seq < unanchored → top w ≤ top (add w seq)
unfolding add
add-top w seq h = ground arith

add-size : (w : ReplayWindow) (seq : ℕ) → (add w seq).size ≡ w.size
unfolding add
add-size w seq = ground arith

add-covers : (w : ReplayWindow) (seq : ℕ) → seq < unanchored → seq ≤ top (add w seq)
unfolding add
add-covers w seq h = ground arith

pub receive-top :
    (w : ReplayWindow) (seq : ℕ)
    → seq < 2 ^ 32
    → (top w ≤ top (receive w seq).0) × ((receive w seq).0.size ≡ w.size)
unfolding receive
receive-top w seq h = ground (arith, add-top w seq, add-size w seq)

receive_all-top :
    (seqs : List ℕ) (w : ReplayWindow) → InRange seqs → top w ≤ top (receive_all w seqs)
unfolding receive_all
receive_all-top [] w h = omega arith
receive_all-top (seq ∷ seqs) w h =
    omega (arith, receive-top w seq h.0, receive_all-top seqs (receive w seq).0 h.1)

receive-fresh :
    (w : ReplayWindow) (seq s : ℕ)
    → seq < 2 ^ 32
    → IsValid w
    → check w s ≡ true
    → seq ≢ s
    → top (receive w seq).0 < s + w.size
    → check (receive w seq).0 s ≡ true
unfolding receive
receive-fresh w seq s h v good ne inside = ground (
  arith,
  check-add_first w v seq s,
  check-add w v seq s,
  check-add_jump w v seq s,
  add-top w seq,
  add-covers w seq,
)

-- Reordering costs nothing: in a well-formed window, an acceptable number that none of the frames
-- received later carries, all with 32-bit numbers, stays acceptable while it lies less than a window
-- below the highest number.
pub receive_all_fresh :
    (seqs : List ℕ) (w : ReplayWindow) (s : ℕ)
    → InRange seqs
    → IsValid w
    → check w s ≡ true
    → All (λ seq. seq ≢ s) seqs
    → top (receive_all w seqs) < s + w.size
    → check (receive_all w seqs) s ≡ true
unfolding receive_all
receive_all_fresh [] w s h v good ne inside = good
receive_all_fresh (seq ∷ seqs) w s h v good ne inside =
    let (_, size) = receive-top w seq h.0 in
    receive_all_fresh seqs (receive w seq).0 s h.1 (receive-IsValid w seq h.0 v)
      (receive-fresh w seq s h.0 v good ne.0
        (omega (arith, receive_all-top seqs (receive w seq).0 h.1)))
      ne.1 (omega arith)
