-- ===== src/Startup/Trace.antt =====
-- What runs after a sequence of actions, and the shape of the commands: a part that is started
-- before the rest and stopped after it.
use vibe_vpn.Base.{
  ℕ, ◌≡◌, refl, Bool, true, false, not, ◌&&◌, ◌||◌, Option, none, some, if◌then◌else◌, ◌==◌, List,
  [], ◌∷◌, ◌++◌, arith, Bool-cases, Option-cases, inl, inr, All,
}
use vibe_vpn.Base.Panic.{◌>>=◌}
use vibe_vpn.Startup.{
  Setting, made, not_made, try_setting, try_setting_if, Part, tun, desync, ctl, metrics, capture,
  udp, tls, raw, Action, started, stopped, refused, warned, failed, serving, bracket, bracket_if,
  fail_unless,
}

abbrev pub number : Part → ℕ
number tun = 0
number desync = 1
number ctl = 2
number metrics = 3
number capture = 4
number udp = 5
number tls = 6
number raw = 7

-- A part that is stopped must run.
unfoldable pub stop_part : Part → List Part → Option (List Part)
stop_part p [] = none
stop_part p (q ∷ up) =
    let rest = stop_part p up in
    if number p == number q then some up else (rest >>= λ up1. some (q ∷ up1))

-- What runs after the actions, if it ran before: none where a part is stopped that does not run.
unfoldable pub running : List Part → List Action → Option (List Part)
unfolding stop_part
running up [] = some up
running up (started p ∷ xs) = running (p ∷ up) xs
running up (stopped p ∷ xs) = stop_part p up >>= λ up1. running up1 xs
running up (refused p ∷ xs) = running up xs
running up (warned p ∷ xs) = running up xs
running up (failed ∷ xs) = running up xs
running up (serving ∷ xs) = running up xs
running up (made s ∷ xs) = running up xs
running up (not_made s ∷ xs) = running up xs

unfoldable pub serves : List Action → Bool
serves [] = false
serves (serving ∷ xs) = true
serves (a ∷ xs) = serves xs

running-append :
    (xs ys : List Action) (up : List Part)
    → running up (xs ++ ys) ≡ (running up xs >>= λ up1. running up1 ys)
unfolding running
running-append [] ys up = refl
running-append (started p ∷ xs) ys up = running-append xs ys (p ∷ up)
running-append (stopped p ∷ xs) ys up = elim (Option-cases (stop_part p up)) [
  | inl bad ↦ ground arith
  | inr (up1, s) ↦ ground (arith, running-append xs ys up1)
]
running-append (refused p ∷ xs) ys up = running-append xs ys up
running-append (warned p ∷ xs) ys up = running-append xs ys up
running-append (failed ∷ xs) ys up = running-append xs ys up
running-append (serving ∷ xs) ys up = running-append xs ys up
running-append (made s ∷ xs) ys up = running-append xs ys up
running-append (not_made s ∷ xs) ys up = running-append xs ys up

serves-append : (xs ys : List Action) → serves (xs ++ ys) ≡ (serves xs || serves ys)
unfolding serves
serves-append [] ys = refl
serves-append (started p ∷ xs) ys = serves-append xs ys
serves-append (stopped p ∷ xs) ys = serves-append xs ys
serves-append (refused p ∷ xs) ys = serves-append xs ys
serves-append (warned p ∷ xs) ys = serves-append xs ys
serves-append (failed ∷ xs) ys = serves-append xs ys
serves-append (serving ∷ xs) ys = refl
serves-append (made s ∷ xs) ys = serves-append xs ys
serves-append (not_made s ∷ xs) ys = serves-append xs ys

stop_top : (p : Part) (up : List Part) → stop_part p (p ∷ up) ≡ some up
unfolding stop_part
stop_top p up = ground arith

pub if_same : {A : Type 0} → (b : Bool) → (x : A) → (if b then x else x) ≡ x
if_same true x = refl
if_same false x = refl

-- The actions serve exactly if `b` says so. If they do, `done` is what runs afterwards, and
-- otherwise what ran before.
abbrev pub Neat : List Part → List Part → List Action → Bool → Type 0
Neat up done xs b = (running up xs ≡ some (if b then done else up)) × (serves xs ≡ b)

bracket-Neat :
    (opens : Part → Bool) (p : Part) (up done : List Part) (rest : List Action) (b : Bool)
    → Neat (p ∷ up) (p ∷ done) rest b
    → Neat up done (bracket opens p rest) (opens p && b)
unfolding running serves
bracket-Neat opens p up done rest b (r, s) = elim (Bool-cases (opens p)) [
  | inr closed ↦ ground arith
  | inl opened ↦ (
    ground (
      arith,
      running-append rest (stopped p ∷ []) (p ∷ up),
      stop_top p up,
      stop_top p done,
      Bool-cases b,
    ),
    ground (arith, serves-append rest (stopped p ∷ [])),
  )
]

fail_unless-Neat :
    (good : Bool) (up done : List Part) (rest : List Action) (b : Bool)
    → Neat up done rest b
    → Neat up done (fail_unless good rest) (good && b)
unfolding running serves
fail_unless-Neat true up done rest b neat = neat
fail_unless-Neat false up done rest b neat = (refl, refl)

abbrev pub IsOther : Part → Type 0
IsOther p = (number p == number desync) ≡ false

-- So it is whatever other parts run.
abbrev pub Leaves : List Part → List Part → List Action → Bool → Type 0
Leaves before after xs b =
    (ys : List Part) → All IsOther ys → Neat (ys ++ before) (ys ++ after) xs b

module _ (opens : Part → Bool) (before after : List Part) (rest : List Action) (b : Bool) where
  pub bracket-Leaves :
      (p : Part)
      → IsOther p
      → Leaves before after rest b
      → Leaves before after (bracket opens p rest) (opens p && b)
  bracket-Leaves p other leaves ys others =
      bracket-Neat opens p (ys ++ before) (ys ++ after) rest b (leaves (p ∷ ys) (other, others))

  pub bracket_if-Leaves :
      (wanted : Bool) (p : Part)
      → IsOther p
      → Leaves before after rest b
      → Leaves before after (bracket_if opens wanted p rest) ((not wanted || opens p) && b)
  bracket_if-Leaves true p other leaves = bracket-Leaves p other leaves
  bracket_if-Leaves false p other leaves = leaves

  pub fail_unless-Leaves :
      (good : Bool)
      → Leaves before after rest b
      → Leaves before after (fail_unless good rest) (good && b)
  fail_unless-Leaves good leaves ys others =
      fail_unless-Neat good (ys ++ before) (ys ++ after) rest b (leaves ys others)

module _ (works : Setting → Bool) (before after : List Part) (rest : List Action) (b : Bool) where
  pub try_setting-Leaves :
      (s : Setting) → Leaves before after rest b → Leaves before after (try_setting works s rest) b
  unfolding running serves
  try_setting-Leaves s leaves ys others = elim (Bool-cases (works s)) [
    | inl good ↦ (ground (arith, leaves ys others), ground (arith, leaves ys others))
    | inr bad ↦ (ground (arith, leaves ys others), ground (arith, leaves ys others))
  ]

  pub try_setting_if-Leaves :
      (wanted : Bool) (s : Setting)
      → Leaves before after rest b
      → Leaves before after (try_setting_if works wanted s rest) b
  try_setting_if-Leaves true s leaves = try_setting-Leaves s leaves
  try_setting_if-Leaves false s leaves = leaves
