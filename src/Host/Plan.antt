-- ===== src/Host/Plan.antt =====
-- Which commands internal/routing/routing_linux.go runs, in which order, and when it stops.
use Prim.Native.String.{String}
use text.Mathlib.Text.{◌==◌ as str_eq}
use vibe_vpn.Base.{
  ℕ, ◌≡◌, refl, ◌∙◌, Bool, true, false, not, Option, some, ltb, if◌then◌else◌, List, [], ◌∷◌, ◌++◌,
  arith, Bool-cases, inl, inr,
}
use vibe_vpn.Host.{Host}
use vibe_vpn.Host.Routing.{
  address, bring_up, set_mtu, route, default_route, parse_route_get, scan_route, mtu_if_positive,
  pin_route, setup_client_tun,
}

-- A host that keeps a log of the commands, the last one first. `ok` says which ones succeed, and
-- `out` what `ip route get` prints.
abbrev pub logging : (List String → Bool) → Option (List String) → Host (List (List String))
logging ok out = record {
  exec = λ log args. (ok args, args ∷ log);
  output = λ log args. (out, log);
  cidr = λ ip prefix. "192.0.2.1/24";
  show_ip = λ ip. "192.0.2.2";
  show = λ n. "1280";
}

-- The commands of a plan up to the first that fails, and whether none does.
abbrev pub follow :
    (List String → Bool) → List (List String) → List (List String) → Bool × List (List String)
follow ok [] log = (true, log)
follow ok (c ∷ plan) log = if ok c then follow ok plan (c ∷ log) else (false, c ∷ log)

abbrev pub mtu_plan : String → ℕ → List (List String)
mtu_plan name mtu = if ltb 0 mtu then set_mtu name "1280" ∷ [] else []

-- The server stays reachable outside the tunnel: by its gateway or its device, where
-- `ip route get` names one.
abbrev pub pin_plan : String → List String → List (List String)
pin_plan host fields =
    let (via, dev) = parse_route_get fields in
    if not (str_eq via "")
    then route host "via" via ∷ []
    else if not (str_eq dev "")
    then route host "dev" dev ∷ []
    else []

abbrev pub client_plan : String → String → ℕ → List String → List (List String)
client_plan name host mtu fields =
    address name "192.0.2.1/24"
    ∷ bring_up name
    ∷ (mtu_plan name mtu ++ (pin_plan host fields ++ (default_route "192.0.2.2" name ∷ [])))

-- Where `ip route get` answers, `SetupClientTUN` runs the address, the link, the MTU if there is
-- one, the route to the server by the gateway or else the device that the answer names, and last
-- the default route into the tunnel; it stops at the first command that fails, and fails then.
pub setup_client_tun-plan :
    (ok : List String → Bool) (fields : List String) (name host : String) (ip prefix gw mtu : ℕ)
    (log : List (List String))
    → setup_client_tun (logging ok (some fields)) name ip prefix gw host mtu log
      ≡ follow ok (client_plan name host mtu fields) log
unfolding setup_client_tun mtu_if_positive pin_route
setup_client_tun-plan ok fields name host ip prefix gw mtu log = elim (Bool-cases (ltb 0 mtu)) [
  | inl m ↦ ground arith
  | inr m ↦ ground arith
]

abbrev pub is_keyword : String → Bool
is_keyword f = if str_eq f "via" then true else str_eq f "dev"

abbrev pub AreValues : List String → Type 0
AreValues [] = true ≡ true
AreValues (f ∷ fields) = (is_keyword f ≡ false) × AreValues fields

scan_values :
    (fields : List String) (via dev : String)
    → AreValues fields
    → scan_route fields via dev ≡ (via, dev)
unfolding scan_route
scan_values [] via dev h = refl
scan_values (f ∷ []) via dev h = refl
scan_values (f ∷ g ∷ fields) via dev h = ground (arith, scan_values (g ∷ fields) via dev h.1)

skip_values :
    (pre rest : List String) (k via dev : String)
    → AreValues pre
    → scan_route (pre ++ (k ∷ rest)) via dev ≡ scan_route (k ∷ rest) via dev
unfolding scan_route
skip_values [] rest k via dev h = refl
skip_values (f ∷ []) rest k via dev h = ground arith
skip_values (f ∷ g ∷ pre) rest k via dev h =
    ground (arith, skip_values (g ∷ pre) rest k via dev h.1)

-- Of a field list with one "via" and one "dev", in this order and not in place of a value,
-- `parseRouteGet` gives the fields that follow them.
pub parse_route_get_fields :
    (pre mid post : List String) (via dev : String)
    → AreValues pre
    → AreValues (via ∷ mid)
    → AreValues (dev ∷ post)
    → parse_route_get (pre ++ ("via" ∷ via ∷ (mid ++ ("dev" ∷ dev ∷ post)))) ≡ (via, dev)
unfolding scan_route
parse_route_get_fields pre mid post via dev a b c =
    skip_values pre (via ∷ (mid ++ ("dev" ∷ dev ∷ post))) "via" "" "" a
    ∙ skip_values (via ∷ mid) (dev ∷ post) "dev" via "" b
    ∙ scan_values (dev ∷ post) via dev c
