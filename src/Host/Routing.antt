-- ===== src/Host/Routing.antt =====
-- internal/routing/routing_linux.go. A function gives whether it succeeds, and the host after it.
-- The MTU that the callers pass is never negative.
use Prim.Native.String.{String}
use text.Mathlib.Text.{◌==◌ as str_eq}
use vibe_vpn.Base.{ℕ, Bool, true, false, not, none, some, ltb, if◌then◌else◌, List, [], ◌∷◌}
use vibe_vpn.Host.{Host}

-- `a`, and then `b` if it succeeded.
infixl 5 ◌and_then◌
abbrev pub ◌and_then◌ : {W : Type 0} → (W → Bool × W) → (W → Bool × W) → W → Bool × W
(a and_then b) w = let (good, w1) = a w in if good then b w1 else (false, w1)

abbrev pub address : String → String → List String
address name ipnet = "ip" ∷ "addr" ∷ "replace" ∷ ipnet ∷ "dev" ∷ name ∷ []

abbrev pub bring_up : String → List String
bring_up name = "ip" ∷ "link" ∷ "set" ∷ "dev" ∷ name ∷ "up" ∷ []

abbrev pub set_mtu : String → String → List String
set_mtu name mtu = "ip" ∷ "link" ∷ "set" ∷ "dev" ∷ name ∷ "mtu" ∷ mtu ∷ []

abbrev pub route : String → String → String → List String
route dst how hop = "ip" ∷ "route" ∷ "replace" ∷ dst ∷ how ∷ hop ∷ []

abbrev pub default_route : String → String → List String
default_route gw name = "ip" ∷ "route" ∷ "replace" ∷ "default" ∷ "via" ∷ gw ∷ "dev" ∷ name ∷ []

-- The loop of `parseRouteGet`, from a field on, with what it has found.
unfoldable pub scan_route : List String → String → String → String × String
scan_route [] via dev = (via, dev)
scan_route (f ∷ []) via dev = (via, dev)
scan_route (f ∷ g ∷ fields) via dev =
    scan_route (g ∷ fields) (if str_eq f "via" then g else via) (if str_eq f "dev" then g else dev)

abbrev pub parse_route_get : List String → String × String
parse_route_get fields = scan_route fields "" ""

module _ {W : Type 0} (h : Host W) where
  abbrev pub run : List String → W → Bool × W
  run args w = h.exec w args

  abbrev pub enable_ip_forward : W → Bool × W
  enable_ip_forward w = run ("sysctl" ∷ "-w" ∷ "net.ipv4.ip_forward=1" ∷ []) w

  unfoldable pub mtu_if_positive : String → ℕ → W → Bool × W
  mtu_if_positive name mtu w = if ltb 0 mtu then run (set_mtu name (h.show mtu)) w else (true, w)

  unfoldable pub setup_server_tun : String → ℕ → ℕ → ℕ → W → Bool × W
  setup_server_tun name addr prefix mtu =
      (λ w. run (address name (h.cidr addr prefix)) w)
      and_then (λ w. run (bring_up name) w)
      and_then (λ w. mtu_if_positive name mtu w)

  -- `routeTo`, and the pin of the route to the server.
  unfoldable pub pin_route : String → W → Bool × W
  pin_route host w =
      let (out, w1) = h.output w ("ip" ∷ "route" ∷ "get" ∷ host ∷ []) in
      elim out [
        | none ↦ (false, w1)
        | some fields ↦
            let (via, dev) = parse_route_get fields in
            if not (str_eq via "")
            then run (route host "via" via) w1
            else if not (str_eq dev "")
            then run (route host "dev" dev) w1
            else (true, w1)
      ]

  -- `host` is the host of serverAddr, or all of it where it has no port.
  unfoldable pub setup_client_tun : String → ℕ → ℕ → ℕ → String → ℕ → W → Bool × W
  setup_client_tun name client_ip prefix gw host mtu =
      (λ w. run (address name (h.cidr client_ip prefix)) w)
      and_then (λ w. run (bring_up name) w)
      and_then (λ w. mtu_if_positive name mtu w)
      and_then (λ w. pin_route host w)
      and_then (λ w. run (default_route (h.show_ip gw) name) w)

  -- `rule` is the text of the nftables rule set, which `load` gives to nft on its standard input;
  -- the outcome of the deletion is not looked at.
  unfoldable pub setup_server_nat : (W → String → Bool × W) → String → W → Bool × W
  setup_server_nat load rule w =
      let (_, w1) = run ("nft" ∷ "delete" ∷ "table" ∷ "ip" ∷ "vibe" ∷ []) w in load w1 rule
