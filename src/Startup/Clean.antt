-- ===== src/Startup/Clean.antt =====
-- What the commands leave behind when they return.
use vibe_vpn.Base.{
  ◌≡◌, refl, ap, ◌∙◌, Bool, true, false, not, ◌&&◌, ◌||◌, some, if◌then◌else◌, List, [], ◌∷◌, ◌++◌,
  arith, Bool-cases, inl, inr, All,
}
use vibe_vpn.Startup.{
  Part, tun, desync, ctl, metrics, capture, udp, tls, raw, Action, stopped, serving, listen,
  Setting, forwarding, server_tun, masquerade, server_parts, only_if, Wanted, run_server,
  client_parts, run_client_command,
}
use vibe_vpn.Startup.Trace.{
  running, serves, stop_part, if_same, Neat, IsOther, Leaves, bracket-Leaves, bracket_if-Leaves,
  fail_unless-Leaves, try_setting-Leaves, try_setting_if-Leaves,
}
use vibe_vpn.Startup.Settings.{settings, server_settings, settings-run_server}

unfoldable listeners : (Part → Bool) → Bool → Bool → Bool → List Action
listeners opens u t r = listen opens (only_if u udp (only_if t tls (only_if r raw []))) []

listeners-Neat :
    (opens : Part → Bool) (u t r : Bool) (up : List Part)
    → Neat up up
        (listeners opens u t r)
        ((not u || opens udp) && (not t || opens tls) && (not r || opens raw) && (u || t || r))
unfolding listeners listen running serves stop_part
listeners-Neat opens true true true up = (ground arith, ground arith)
listeners-Neat opens true true false up = (ground arith, ground arith)
listeners-Neat opens true false true up = (ground arith, ground arith)
listeners-Neat opens true false false up = (ground arith, ground arith)
listeners-Neat opens false true true up = (ground arith, ground arith)
listeners-Neat opens false true false up = (ground arith, ground arith)
listeners-Neat opens false false true up = (ground arith, ground arith)
listeners-Neat opens false false false up = (ground arith, ground arith)

-- When the server should come up: its configuration is readable, the manager can be made, every
-- part that is asked for starts, and there is a listener.
abbrev pub server_comes_up : (Part → Bool) → Bool → Bool → Wanted → Bool
server_comes_up opens readable managed w =
    let (u, t, r) = w.listens in
    readable
    && (opens tun
        && (managed
            && ((not w.has_ctl || opens ctl)
                && ((not w.has_metrics || opens metrics)
                    && ((not w.debug || opens capture)
                        && ((not u || opens udp)
                            && (not t || opens tls)
                            && (not r || opens raw)
                            && (u || t || r)))))))

-- The server command stops exactly the parts that it started, whatever does not start. Once the TUN
-- device is there, it makes every setting of the host that works, the masquerade only where NAT is
-- asked for, whatever fails afterwards. It serves exactly if its configuration is readable, the
-- manager can be made, every part that is asked for starts, and there is a listener.
pub run_server_stops :
    (opens : Part → Bool) (works : Setting → Bool) (readable nat managed : Bool) (w : Wanted)
    → let actions = run_server opens works readable nat managed w in
      (running [] actions ≡ some [])
      × (settings actions ≡ (if readable && opens tun then server_settings works nat else []))
      × (serves actions ≡ server_comes_up opens readable managed w)
unfolding run_server server_parts listeners
run_server_stops opens works readable nat managed w =
    let (u, t, r) = w.listens in
    let neat =
      fail_unless-Leaves opens [] [] _ _ readable
        (bracket-Leaves opens [] [] _ _ tun refl (
          try_setting-Leaves works [] [] _ _ forwarding (
            try_setting-Leaves works [] [] _ _ server_tun (
              try_setting_if-Leaves works [] [] _ _ nat masquerade (
                fail_unless-Leaves opens [] [] _ _ managed (
                  bracket_if-Leaves opens [] [] _ _ w.has_ctl ctl refl (
                    bracket_if-Leaves opens [] [] _ _ w.has_metrics metrics refl (
                      bracket_if-Leaves opens [] [] _ _ w.debug capture refl
                        (λ ys others. listeners-Neat opens u t r (ys ++ []))))))))))
        [] tt in
    (
      neat.0 ∙ ap some (if_same _ []),
      settings-run_server opens works readable nat managed w,
      neat.1,
    )

desync_below :
    (ys : List Part) → All IsOther ys → stop_part desync (ys ++ (desync ∷ [])) ≡ some (ys ++ [])
unfolding stop_part
desync_below [] others = refl
desync_below (tun ∷ ys) (o, others) = ground (arith, desync_below ys others)
desync_below (desync ∷ ys) (o, others) = absurd (ground arith)
desync_below (ctl ∷ ys) (o, others) = ground (arith, desync_below ys others)
desync_below (metrics ∷ ys) (o, others) = ground (arith, desync_below ys others)
desync_below (capture ∷ ys) (o, others) = ground (arith, desync_below ys others)
desync_below (udp ∷ ys) (o, others) = ground (arith, desync_below ys others)
desync_below (tls ∷ ys) (o, others) = ground (arith, desync_below ys others)
desync_below (raw ∷ ys) (o, others) = ground (arith, desync_below ys others)

abbrev desync_if : Bool → List Part
desync_if on = if on then desync ∷ [] else []

last-Leaves :
    (on : Bool) → Leaves (desync_if on) [] (serving ∷ (if on then stopped desync ∷ [] else [])) true
unfolding running serves
last-Leaves true ys others = (ground (arith, desync_below ys others), refl)
last-Leaves false ys others = (refl, refl)

-- When the client should come up, once the desync is dealt with.
abbrev pub client_comes_up : (Part → Bool) → Bool → Bool → Wanted → Bool
client_comes_up opens good_ip dials w =
    good_ip
    && (opens tun
        && ((not w.debug || opens capture)
            && (dials
                && ((not w.has_ctl || opens ctl)
                    && ((not w.has_metrics || opens metrics) && true)))))

client_parts-Neat :
    (opens : Part → Bool) (good_ip dials on : Bool) (w : Wanted)
    → Neat
        (desync_if on)
        []
        (client_parts opens good_ip dials on w)
        (client_comes_up opens good_ip dials w)
unfolding client_parts
client_parts-Neat opens good_ip dials on w =
    fail_unless-Leaves opens (desync_if on) [] _ _ good_ip
      (bracket-Leaves opens (desync_if on) [] _ _ tun refl (
        bracket_if-Leaves opens (desync_if on) [] _ _ w.debug capture refl (
          fail_unless-Leaves opens (desync_if on) [] _ _ dials (
            bracket_if-Leaves opens (desync_if on) [] _ _ w.has_ctl ctl refl (
              bracket_if-Leaves opens (desync_if on) [] _ _ w.has_metrics metrics refl
                (last-Leaves on))))))
      [] tt

-- The client command serves exactly if its configuration is readable, the server's port is a number
-- where the desync is asked for, the preferred address and the dialers are good, and every part
-- that is asked for starts, the desync excepted. It stops its parts, but not always the desync:
-- where that runs and the command does not come to serve, the desync goes on running.
pub run_client_command_leaks :
    (opens : Part → Bool) (readable desyncs good_port good_ip dials : Bool) (w : Wanted)
    → let actions = run_client_command opens readable desyncs good_port good_ip dials w in
      let comes_up =
        readable && (not desyncs || good_port) && client_comes_up opens good_ip dials w in
      (running [] actions
        ≡ some (
            if readable && desyncs && good_port && opens desync && not comes_up
            then desync ∷ []
            else []))
      × (serves actions ≡ comes_up)
unfolding run_client_command running serves
run_client_command_leaks opens false desyncs good_port good_ip dials w = (refl, refl)
run_client_command_leaks opens true true false good_ip dials w = (refl, refl)
run_client_command_leaks opens true false good_port good_ip dials w =
    let neat = client_parts-Neat opens good_ip dials false w in
    (neat.0 ∙ ap some (if_same _ []), neat.1)
run_client_command_leaks opens true true true good_ip dials w = elim (Bool-cases (opens desync)) [
  | inr off ↦
      let neat = client_parts-Neat opens good_ip dials false w in
      (
        ground (arith, neat, if_same (client_comes_up opens good_ip dials w) []),
        ground (arith, neat),
      )
  | inl on ↦
      let neat = client_parts-Neat opens good_ip dials true w in
      (
        ground (arith, neat, Bool-cases (client_comes_up opens good_ip dials w)),
        ground (arith, neat),
      )
]
