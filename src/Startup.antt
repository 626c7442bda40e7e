-- ===== src/Startup.antt =====
-- `runServer` and `runClient` of cmd/vpn/server.go and cmd/vpn/client.go, from their configuration
-- on: what they start, in which order, and what they stop when they return. A deferred call runs
-- when the function returns, the last one first. Whether a part starts is an argument, as are the
-- steps before the first part. Log lines, the signal handlers and the
-- statistics are left out, and so are the sessions, which `runServer` does not end, and the routes
-- that the client sets up when it gets its address.
pub mod Trace
pub mod Settings
pub mod Clean
pub mod Reload
mod Tests
use Prim.Native.String.{String}
use text.Mathlib.Text.{◌==◌ as str_eq}
use vibe_vpn.Base.{
  Bool, true, false, not, ◌&&◌, Option, none, some, if◌then◌else◌, List, [], ◌∷◌, ◌++◌, map,
}
use vibe_vpn.Config.{ServerConfig}

-- The TUN device, the desync manager, the control socket, the metrics endpoint, the capture file
-- and the three listeners.
pub data Part : Type 0 where
  tun desync ctl metrics capture udp tls raw : Part

-- What the server changes on the host: forwarding of IPv4 packets, the address and the MTU of its
-- TUN device, and the masquerade of nftables. Nothing in `runServer` undoes them.
pub data Setting : Type 0 where
  forwarding server_tun masquerade : Setting

-- `refused` is an error of the part that starts, `not_made` one of a setting, which is only logged;
-- `failed` any other error that makes the command
-- return, and `warned` one that is only logged.
pub data Action : Type 0 where
  started stopped refused warned : Part → Action
  made not_made : Setting → Action
  failed serving : Action

-- x, err := open(); if err != nil { return err }; defer x.Close(); and then `rest`.
abbrev pub bracket : (Part → Bool) → Part → List Action → List Action
bracket opens p rest = if opens p then started p ∷ (rest ++ (stopped p ∷ [])) else refused p ∷ []

abbrev pub bracket_if : (Part → Bool) → Bool → Part → List Action → List Action
bracket_if opens wanted p rest = if wanted then bracket opens p rest else rest

abbrev pub fail_unless : Bool → List Action → List Action
fail_unless good rest = if good then rest else failed ∷ []

-- if err := setup(); err != nil { log }; and then `rest`.
abbrev pub try_setting : (Setting → Bool) → Setting → List Action → List Action
try_setting works s rest = (if works s then made s else not_made s) ∷ rest

abbrev pub try_setting_if : (Setting → Bool) → Bool → Setting → List Action → List Action
try_setting_if works wanted s rest = if wanted then try_setting works s rest else rest

-- The listeners from the next one on; `up` are those that listen, and `closeAll` closes them.
unfoldable pub listen : (Part → Bool) → List Part → List Part → List Action
listen opens [] [] = failed ∷ []
listen opens [] (p ∷ up) = serving ∷ map stopped (p ∷ up)
listen opens (p ∷ ps) up =
    if opens p then started p ∷ listen opens ps (up ++ (p ∷ [])) else refused p ∷ map stopped up

abbrev pub only_if : Bool → Part → List Part → List Part
only_if wanted p ps = if wanted then p ∷ ps else ps

-- What the configuration asks for; `has_ctl` is sc.Ctl != "", and `debug` that of the flag or of
-- sc.Debug.
pub record Wanted : Type 0 where
  pub has_ctl : Bool
  pub has_metrics : Bool
  pub debug : Bool
  pub listens : Bool × Bool × Bool

abbrev has : {A : Type 0} → Option A → Bool
has none = false
has (some a) = true

unfoldable pub server_wants : ServerConfig → Bool → Bool → Wanted
server_wants sc has_ctl debug = record {
  has_ctl = has_ctl;
  has_metrics = not (str_eq sc.common.metrics "");
  debug = debug;
  listens = (
    not (str_eq sc.common.transport "raw")
        && not (str_eq sc.common.transport "tls")
        && not (str_eq sc.listen ""),
    has sc.tls,
    has sc.raw,
  );
}

-- What `runServer` does once it has a manager.
unfoldable pub server_parts : (Part → Bool) → Wanted → List Action
unfolding listen
server_parts opens w =
    let (u, t, r) = w.listens in
    bracket_if opens w.has_ctl ctl (
      bracket_if opens w.has_metrics metrics (
        bracket_if opens w.debug capture
          (listen opens (only_if u udp (only_if t tls (only_if r raw []))) [])))

-- `readable`: the configuration, the private key, the subnet and the peers are good; `nat`: the
-- configuration and the flag ask for the masquerade; `managed`: NewManager gives a manager.
-- `works` says which settings of the host can be made.
unfoldable pub run_server :
    (Part → Bool) → (Setting → Bool) → Bool → Bool → Bool → Wanted → List Action
unfolding server_parts
run_server opens works readable nat managed w = fail_unless readable (
    bracket opens tun (
      try_setting works forwarding (
        try_setting works server_tun
          (try_setting_if works nat masquerade (fail_unless managed (server_parts opens w))))))

-- What `runClient` does after the desync: `on` says whether `desyncMgr` is set. `dials`: clientDial
-- gives a dialer.
unfoldable pub client_parts : (Part → Bool) → Bool → Bool → Bool → Wanted → List Action
client_parts opens good_ip dials on w =
    let stop_desync = if on then stopped desync ∷ [] else [] in
    fail_unless good_ip (
      bracket opens tun (
        bracket_if opens w.debug capture (
          fail_unless dials (
            bracket_if opens w.has_ctl ctl
              (bracket_if opens w.has_metrics metrics (serving ∷ stop_desync))))))

-- `desyncs`: the configuration asks for it; `good_port`: the server's port is a number.
unfoldable pub run_client_command :
    (Part → Bool) → Bool → Bool → Bool → Bool → Bool → Wanted → List Action
unfolding client_parts
run_client_command opens readable desyncs good_port good_ip dials w =
    let start =
      if opens desync
      then started desync ∷ client_parts opens good_ip dials true w
      else warned desync ∷ client_parts opens good_ip dials false w in
    fail_unless readable
      (if desyncs then fail_unless good_port start else client_parts opens good_ip dials false w)
