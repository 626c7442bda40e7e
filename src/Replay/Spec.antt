-- ===== src/Replay/Spec.antt =====
-- What the window promises, without a bitmap: the receiver remembers every number that it has
-- accepted. The window does the same with `size` bits, as long as no number jumps over it.
use vibe_vpn.Base.{
  ℕ, ◌+◌, ◌^◌, ◌<◌, ◌≤◌, ◌≡◌, refl, Bool, true, false, not, ◌&&◌, ◌||◌, List, [], ◌∷◌, ltb, leb,
  ◌==◌, if◌then◌else◌, arith, Bool-cases, inl, inr,
}
use vibe_vpn.Replay.{ReplayWindow, IsValid, unanchored, new_replay_window, check, add}
use vibe_vpn.Replay.Window.{check-add, check-add_first}
use vibe_vpn.Replay.Valid.{new_replay_window-IsValid}
use vibe_vpn.Replay.History.{receive, receive-IsValid, receive-top, InRange}

abbrev pub greatest : List ℕ → ℕ
greatest [] = 0
greatest (x ∷ xs) = if ltb (greatest xs) x then x else greatest xs

abbrev pub seen_before : List ℕ → ℕ → Bool
seen_before [] s = false
seen_before (x ∷ xs) s = s == x || seen_before xs s

abbrev pub is_nil : List ℕ → Bool
is_nil [] = true
is_nil (x ∷ xs) = false

-- A number is accepted when it is the first, or lies above all accepted ones, or lies less than
-- `size` below the greatest and was not accepted before.
abbrev pub accepts : ℕ → List ℕ → ℕ → Bool
accepts size seen s =
    is_nil seen
    || ltb (greatest seen) s
    || (ltb (greatest seen) (s + size) && not (seen_before seen s))

abbrev pub remember : ℕ → List ℕ → ℕ → List ℕ
remember size seen s = if accepts size seen s then s ∷ seen else seen

-- The verdicts on a sequence of numbers, by the specification and by the window.
abbrev pub spec_verdicts : ℕ → List ℕ → List ℕ → List Bool
spec_verdicts size seen [] = []
spec_verdicts size seen (s ∷ seqs) =
    accepts size seen s ∷ spec_verdicts size (remember size seen s) seqs

abbrev pub verdicts : ReplayWindow → List ℕ → List Bool
verdicts w [] = []
verdicts w (s ∷ seqs) = (receive w s).1 ∷ verdicts (receive w s).0 seqs

-- No number lies `size` or more above all the accepted ones.
abbrev pub NoJumps : ℕ → List ℕ → List ℕ → Type 0
NoJumps size seen [] = Unit
NoJumps size seen (s ∷ seqs) =
    ((is_nil seen || ltb s (greatest seen + size)) ≡ true)
    × NoJumps size (remember size seen s) seqs

record Refines (size : ℕ) (w : ReplayWindow) (seen : List ℕ) : Type 0 where
  valid : IsValid w
  same_size : w.size ≡ size
  empty : is_nil seen ≡ true → w.high ≡ unanchored
  top : is_nil seen ≡ false → (w.high ≡ greatest seen) × (greatest seen < 2 ^ 32)
  agrees : (s : ℕ) → check w s ≡ accepts size seen s

nil_seen :
    (seen : List ℕ) (t : ℕ)
    → is_nil seen ≡ true
    → (seen_before seen t ≡ false) × (greatest seen ≡ 0)
nil_seen [] t e = (refl, refl)
nil_seen (x ∷ xs) t e = absurd (ground arith)

seen-le-greatest : (seen : List ℕ) (t : ℕ) → seen_before seen t ≡ true → t ≤ greatest seen
seen-le-greatest [] t e = absurd (ground arith)
seen-le-greatest (x ∷ xs) t e = ground (arith, seen-le-greatest xs t)

add-high :
    (w : ReplayWindow) (s : ℕ)
    → (add w s).high ≡ (if w.high == unanchored then s else if leb s w.high then w.high else s)
unfolding add
add-high w s = ground arith

module _ (size : ℕ) (w : ReplayWindow) (seen : List ℕ) (s : ℕ) (r : Refines size w seen)
    (small : s < 2 ^ 32) (near : (is_nil seen || ltb s (greatest seen + size)) ≡ true) where
  step-verdict : (receive w s).1 ≡ accepts size seen s
  unfolding receive
  step-verdict = ground (arith, r.agrees s)

  first-agrees : is_nil seen ≡ true → (t : ℕ) → check (add w s) t ≡ accepts size (s ∷ seen) t
  first-agrees new t = ground (
    arith,
    check-add_first w r.valid s t (omega arith) (r.empty new),
    nil_seen seen t new,
    r.same_size,
    r.valid.sized,
    r.valid.nonempty,
  )

  later-agrees :
      is_nil seen ≡ false
      → accepts size seen s ≡ true
      → (t : ℕ) → check (add w s) t ≡ accepts size (s ∷ seen) t
  later-agrees old good t =
      let (high, bound) = r.top old in
      let e : check (add w s) t
          ≡ (check w t && not (t == s) && ltb (if ltb w.high s then s else w.high) (t + w.size)) =
        check-add w r.valid s t (omega arith) (omega (arith, high, bound))
          (ground (arith, r.same_size)) in
      rw (e, r.agrees t, r.same_size, high)
        (ground (arith, r.valid.sized, r.valid.nonempty, r.same_size, seen-le-greatest seen t))

  step-agrees : (t : ℕ) → check (receive w s).0 t ≡ accepts size (remember size seen s) t
  unfolding receive
  step-agrees t = elim (Bool-cases (accepts size seen s)) [
    | inr refused ↦ rw (r.agrees s, refused) (r.agrees t)
    | inl good ↦ elim (Bool-cases (is_nil seen)) [
      | inl new ↦ rw (r.agrees s, good) (first-agrees new t)
      | inr old ↦ rw (r.agrees s, good) (later-agrees old good t)
    ]
  ]

  step-top :
      is_nil (remember size seen s) ≡ false
      → ((receive w s).0.high ≡ greatest (remember size seen s))
        × (greatest (remember size seen s) < 2 ^ 32)
  unfolding receive
  step-top some_seen = ground (arith, r.agrees s, add-high w s, r.top, r.empty, nil_seen seen s)

  step-Refines : Refines size (receive w s).0 (remember size seen s)
  step-Refines = record {
    valid = receive-IsValid w s small r.valid;
    same_size = ground (arith, receive-top w s small, r.same_size);
    empty = λ e. absurd (ground arith);
    top = step-top;
    agrees = step-agrees;
  }

verdicts-Refines :
    (size : ℕ) (seqs : List ℕ) (w : ReplayWindow) (seen : List ℕ)
    → Refines size w seen
    → InRange seqs
    → NoJumps size seen seqs
    → verdicts w seqs ≡ spec_verdicts size seen seqs
verdicts-Refines size [] w seen r h near = refl
verdicts-Refines size (s ∷ seqs) w seen r h near =
    let rest : verdicts (receive w s).0 seqs ≡ spec_verdicts size (remember size seen s) seqs =
      verdicts-Refines size seqs (receive w s).0 (remember size seen s)
        (step-Refines size w seen s r h.0 near.0) h.1 near.1 in
    rw (step-verdict size w seen s r h.0 near.0, rest) refl

new-Refines : (n : ℕ) → n < 2 ^ 63 → Refines (new_replay_window n).size (new_replay_window n) []
unfolding check new_replay_window
new-Refines n h = record {
  valid = new_replay_window-IsValid n h;
  same_size = refl;
  empty = λ _. refl;
  top = λ e. absurd (ground arith);
  agrees = λ s. refl;
}

-- On every sequence of 32-bit numbers of which none jumps over the window, a new window, of any size
-- that NewReplayWindow is asked for below 2^63, gives the verdicts of a receiver that remembers
-- every number it has accepted.
pub verdicts-spec_verdicts :
    (n : ℕ) (seqs : List ℕ)
    → n < 2 ^ 63
    → InRange seqs
    → NoJumps (new_replay_window n).size [] seqs
    → verdicts (new_replay_window n) seqs ≡ spec_verdicts (new_replay_window n).size [] seqs
verdicts-spec_verdicts n seqs h range near =
    verdicts-Refines (new_replay_window n).size seqs (new_replay_window n) [] (new-Refines n h)
      range near
