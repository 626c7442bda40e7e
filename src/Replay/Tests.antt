-- ===== src/Replay/Tests.antt =====
-- The window on small inputs.
use vibe_vpn.Base.{◌≡◌, ◌≢◌, ◌<◌, ◌≤◌, ◌+◌, refl, true, false, [], ◌∷◌, arith}
use vibe_vpn.Replay.{ReplayWindow, IsValid, new_replay_window, check, add, unanchored}
use vibe_vpn.Replay.Valid.{new_replay_window-IsValid, add-IsValid}
use vibe_vpn.Replay.History.{
  receive, receive_all, receive_once, receive_jump_replayed, receive_all_fresh, NoJump,
}
use vibe_vpn.Replay.Spec.{spec_verdicts, verdicts, verdicts-spec_verdicts}

abbrev new : ReplayWindow
new = new_replay_window 64

new-IsValid : IsValid new
new-IsValid = new_replay_window-IsValid 64 (omega arith)

abbrev anchored : ReplayWindow
anchored = add new 5

anchored-IsValid : IsValid anchored
anchored-IsValid = add-IsValid new 5 (omega arith) new-IsValid

anchored-high : anchored.high ≡ 5
unfolding add new_replay_window
anchored-high = refl

anchored-size : anchored.size ≡ 64
unfolding add new_replay_window
anchored-size = refl

anchored_used : anchored.high ≢ unanchored
anchored_used = ground (arith, anchored-high)

new-high : new.high ≡ unanchored
unfolding new_replay_window
new-high = refl

new-NoJump : NoJump new 5
new-NoJump = λ used. absurd (used new-high)

anchored_near : 9 < anchored.high + anchored.size
anchored_near = omega (arith, anchored-high, anchored-size)

anchored_far : anchored.high + anchored.size ≤ 69
anchored_far = omega (arith, anchored-high, anchored-size)

receive_once_example : (receive (receive_all (receive new 5).0 (9 ∷ 5 ∷ [])) 5).1 ≡ false
receive_once_example =
    receive_once new 5 (9 ∷ 5 ∷ []) (omega arith) (omega arith, (omega arith, tt)) new-IsValid
      new-NoJump

receive_jump_replayed_example :
    let first = receive anchored 69 in
    let second = receive first.0 69 in
    let third = receive second.0 69 in (first.1 ≡ true) × (second.1 ≡ true) × (third.1 ≡ false)
receive_jump_replayed_example =
    receive_jump_replayed anchored 69 (omega arith) anchored-IsValid anchored_used anchored_far

receive_all_fresh_example : check (receive_all anchored (9 ∷ 12 ∷ [])) 7 ≡ true
unfolding add new_replay_window check receive receive_all
receive_all_fresh_example =
    receive_all_fresh (9 ∷ 12 ∷ []) anchored 7 (omega arith, (omega arith, tt)) anchored-IsValid
      refl (omega arith, (omega arith, tt)) (omega arith)

-- Rounded down to whole words, and never below one.
sizes : ((new_replay_window 0).size ≡ 64) × ((new_replay_window 130).size ≡ 128)
unfolding new_replay_window
sizes = (refl, refl)

-- A number twice, one out of order, and one that has left the window.
verdicts-spec_verdicts_example :
    verdicts new (5 ∷ 5 ∷ 3 ∷ 66 ∷ 2 ∷ []) ≡ spec_verdicts new.size [] (5 ∷ 5 ∷ 3 ∷ 66 ∷ 2 ∷ [])
unfolding new_replay_window
verdicts-spec_verdicts_example =
    verdicts-spec_verdicts 64 (5 ∷ 5 ∷ 3 ∷ 66 ∷ 2 ∷ []) (omega arith)
      (omega arith, (omega arith, (omega arith, (omega arith, (omega arith, tt)))))
      (refl, (refl, (refl, (refl, (refl, tt)))))
