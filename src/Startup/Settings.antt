-- ===== src/Startup/Settings.antt =====
-- Which settings of the host a sequence of actions makes.
use vibe_vpn.Base.{
  ◌≡◌, refl, ap, ◌∙◌, Bool, true, false, ◌&&◌, if◌then◌else◌, List, [], ◌∷◌, ◌++◌, map, arith,
  Bool-cases, inl, inr,
}
use vibe_vpn.Startup.{
  Part, tun, ctl, metrics, capture, Setting, forwarding, server_tun, masquerade, Action, started,
  stopped, refused, warned, made, not_made, failed, serving, bracket, bracket_if, fail_unless,
  try_setting, try_setting_if, listen, Wanted, server_parts, run_server,
}

unfoldable pub settings : List Action → List Setting
settings [] = []
settings (made s ∷ xs) = s ∷ settings xs
settings (x ∷ xs) = settings xs

settings-append : (xs ys : List Action) → settings (xs ++ ys) ≡ settings xs ++ settings ys
unfolding settings
settings-append [] ys = refl
settings-append (made s ∷ xs) ys = ap (λ (l : List Setting). s ∷ l) (settings-append xs ys)
settings-append (not_made s ∷ xs) ys = settings-append xs ys
settings-append (started p ∷ xs) ys = settings-append xs ys
settings-append (stopped p ∷ xs) ys = settings-append xs ys
settings-append (refused p ∷ xs) ys = settings-append xs ys
settings-append (warned p ∷ xs) ys = settings-append xs ys
settings-append (failed ∷ xs) ys = settings-append xs ys
settings-append (serving ∷ xs) ys = settings-append xs ys

append_nil : (ss : List Setting) → ss ++ [] ≡ ss
append_nil [] = refl
append_nil (s ∷ ss) = ap (λ (l : List Setting). s ∷ l) (append_nil ss)

pub settings-bracket :
    (opens : Part → Bool) (p : Part) (rest : List Action)
    → settings (bracket opens p rest) ≡ (if opens p then settings rest else [])
unfolding settings
settings-bracket opens p rest = elim (Bool-cases (opens p)) [
  | inl opened ↦ ground (arith, settings-append rest (stopped p ∷ []), append_nil (settings rest))
  | inr closed ↦ ground arith
]

abbrev IsSilent : List Action → Type 0
IsSilent xs = settings xs ≡ []

bracket_if-IsSilent :
    (opens : Part → Bool) (wanted : Bool) (p : Part) (rest : List Action)
    → IsSilent rest
    → IsSilent (bracket_if opens wanted p rest)
bracket_if-IsSilent opens false p rest silent = silent
bracket_if-IsSilent opens true p rest silent = ground (arith, settings-bracket opens p rest)

settings-stopped : (up : List Part) → settings (map stopped up) ≡ []
unfolding settings
settings-stopped [] = refl
settings-stopped (p ∷ up) = settings-stopped up

listen-IsSilent : (opens : Part → Bool) (ps up : List Part) → IsSilent (listen opens ps up)
unfolding listen settings
listen-IsSilent opens [] [] = refl
listen-IsSilent opens [] (p ∷ up) = settings-stopped up
listen-IsSilent opens (p ∷ ps) up = elim (Bool-cases (opens p)) [
  | inl opened ↦ ground (arith, listen-IsSilent opens ps (up ++ (p ∷ [])))
  | inr closed ↦ ground (arith, settings-stopped up)
]

server_parts-IsSilent :
    (opens : Part → Bool) (managed : Bool) (w : Wanted)
    → IsSilent (fail_unless managed (server_parts opens w))
unfolding server_parts settings
server_parts-IsSilent opens false w = refl
server_parts-IsSilent opens true w =
    let (u, t, r) = w.listens in
    bracket_if-IsSilent opens w.has_ctl ctl _ (
      bracket_if-IsSilent opens w.has_metrics metrics _
        (bracket_if-IsSilent opens w.debug capture _ (listen-IsSilent opens _ [])))

abbrev setting_if : Bool → Setting → List Setting → List Setting
setting_if good s ss = if good then s ∷ ss else ss

-- The settings that `runServer` makes, once its TUN device is there.
abbrev pub server_settings : (Setting → Bool) → Bool → List Setting
server_settings works nat =
    setting_if (works forwarding) forwarding (
      setting_if (works server_tun) server_tun (setting_if (nat && works masquerade) masquerade []))

settings-try_setting :
    (works : Setting → Bool) (s : Setting) (rest : List Action)
    → settings (try_setting works s rest) ≡ setting_if (works s) s (settings rest)
unfolding settings
settings-try_setting works s rest = ground (arith, Bool-cases (works s))

settings-nat :
    (works : Setting → Bool) (nat : Bool) (rest : List Action)
    → IsSilent rest
    → settings (try_setting_if works nat masquerade rest)
      ≡ setting_if (nat && works masquerade) masquerade []
settings-nat works false rest silent = silent
settings-nat works true rest silent = ground (arith, settings-try_setting works masquerade rest)

pub settings-run_server :
    (opens : Part → Bool) (works : Setting → Bool) (readable nat managed : Bool) (w : Wanted)
    → settings (run_server opens works readable nat managed w)
      ≡ (if readable && opens tun then server_settings works nat else [])
unfolding run_server
settings-run_server opens works false nat managed w = unfold settings in refl
settings-run_server opens works true nat managed w =
    let last = fail_unless managed (server_parts opens w) in
    let nat_part = try_setting_if works nat masquerade last in
    let tun_part = try_setting works server_tun nat_part in
    let silent = server_parts-IsSilent opens managed w in
    settings-bracket opens tun (try_setting works forwarding tun_part)
    ∙ ap (λ (l : List Setting). if opens tun then l else [])
        (settings-try_setting works forwarding tun_part
          ∙ ap (setting_if (works forwarding) forwarding) (
              settings-try_setting works server_tun nat_part
              ∙ ap (setting_if (works server_tun) server_tun) (settings-nat works nat last silent)))
