-- ===== src/Udp/Safety.antt =====
-- Operations of internal/transport/udp/udp.go one after another, each run to its end before the
-- next one starts.
use vibe_vpn.Base.{
  ℕ, ◌≡◌, refl, Bool, false, Option, none, some, List, [], ◌∷◌, Bytes, arith, Option-cases, inl,
  inr,
}
use vibe_vpn.Base.Panic.{◌>>=◌}
use vibe_vpn.Base.Assoc.{find}
use vibe_vpn.Udp.{UdpServer, new_endpoint, close_server, close_endpoint, receive_endpoint, dispatch}
use vibe_vpn.Udp.Valid.{IsValid, IsLive, find-IsLive}
use vibe_vpn.Udp.Steps.{
  dispatch-IsValid, receive_endpoint-IsValid, close_endpoint-IsValid, close_server-IsValid,
}

-- What happens at a server: a datagram comes in, a session reads or closes its transport, or the
-- program closes the server.
pub data Action : Type 0 where
  arrives : ℕ → Bytes → Bool → Bool → Action
  reads : ℕ → Bool → Action
  closes : ℕ → Action
  shuts : Action

-- A `Receive` that blocks changes nothing.
pub act : UdpServer → Action → Option UdpServer
unfolding dispatch receive_endpoint
act s (arrives key buf pick admits) = dispatch s key buf pick admits >>= λ r. some r.1
act s (reads r pick) = elim (receive_endpoint s r pick) [ none ↦ some s | some (b, t) ↦ some t ]
act s (closes r) = close_endpoint s r
act s shuts = close_server s

pub acts : UdpServer → List Action → Option UdpServer
unfolding act
acts s [] = some s
acts s (a ∷ actions) = act s a >>= λ t. acts t actions

abbrev pub empty_server : UdpServer
empty_server = record { eps = []; endpoint = new_endpoint; next_ref = 0; closed = false }

act-IsValid :
    (s : UdpServer) (a : Action) → IsValid s → (t : UdpServer) × (act s a ≡ some t) × IsValid t
unfolding act
act-IsValid s (arrives key buf pick admits) v =
    let (f, t, run, ok) = dispatch-IsValid s key buf pick admits v in (t, ground arith, ok)
act-IsValid s (reads r pick) v = elim (Option-cases (receive_endpoint s r pick)) [
  | inl e ↦ (s, ground arith, v)
  | inr ((b, t), e) ↦ (t, ground arith, receive_endpoint-IsValid s t r pick b v e)
]
act-IsValid s (closes r) v = close_endpoint-IsValid s r v
act-IsValid s shuts v = close_server-IsValid s v

pub empty-IsValid : IsValid empty_server
unfolding IsValid
empty-IsValid = refl

acts-IsValid :
    (s : UdpServer) (actions : List Action)
    → IsValid s
    → (t : UdpServer) × (acts s actions ≡ some t) × IsValid t
unfolding acts
acts-IsValid s [] v = (s, refl, v)
acts-IsValid s (a ∷ actions) v =
    let (t, run, w) = act-IsValid s a v in
    let (t', run', w') = acts-IsValid t actions w in (t', ground arith, w')

-- From a new server on, whatever datagrams come in and whichever transports are read and closed,
-- with each operation run to its end before the next one starts: no operation panics on a channel
-- that is closed already, and each entry of the table of the server is an endpoint that is not
-- done, under the key of its own peer.
pub acts_never_panic :
    (actions : List Action)
    → (s : UdpServer) × (acts empty_server actions ≡ some s)
      × ((key r : ℕ) → find s.eps key ≡ some r → IsLive s key r)
acts_never_panic actions =
    let (s, run, v) = acts-IsValid empty_server actions (empty-IsValid) in
    (s, run, λ key r e. find-IsLive s key r v e)
