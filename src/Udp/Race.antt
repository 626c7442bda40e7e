-- ===== src/Udp/Race.antt =====
-- `Close` of the server and `Close` of a session's transport at the same time, in
-- internal/transport/udp/udp.go.
use vibe_vpn.Base.{ℕ, ◌≡◌, true, false, none, some, List, [], ◌∷◌, arith}
use vibe_vpn.Base.Panic.{◌>>=◌}
use vibe_vpn.Base.Assoc.{find}
use vibe_vpn.Udp.{
  UdpServer, set_endpoint, close_done, begin_close, close_each, close_endpoint, forget,
}
use vibe_vpn.Udp.Valid.{IsValid, find-IsLive}

-- The loop of `Close` panics at an endpoint that is done.
close_each_panics :
    (eps : List (ℕ × ℕ)) (s : UdpServer) (key r : ℕ)
    → find eps key ≡ some r
    → (s.endpoint r).is_done ≡ true
    → close_each eps s ≡ none
unfolding close_each close_done
close_each_panics [] s key r e x = ground arith
close_each_panics ((k, q) ∷ eps) s key r e x =
    let ep = s.endpoint q in
    let t = set_endpoint s q (record ep { is_done = true }) in
    ground (arith, close_each_panics eps t key r)

-- When the session of a peer closes its transport between the critical section of the server's
-- `Close` and the loop behind it, the loop closes the endpoint a second time, which panics.
pub close_race :
    (s : UdpServer) (key r : ℕ)
    → IsValid s
    → find s.eps key ≡ some r
    → (s.endpoint r).closed ≡ false
    → let (eps, s1) = begin_close s in close_endpoint s1 r >>= close_each eps ≡ none
unfolding begin_close close_endpoint close_done forget
close_race s key r v e up =
    let e1 = s.endpoint r in
    let t = set_endpoint (begin_close s).1 r (record e1 { closed = true; is_done = true }) in
    ground (arith, close_each_panics s.eps t key r, find-IsLive s key r v)
