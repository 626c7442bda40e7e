-- ===== src/Udp.antt =====
-- `Server` and `endpointTransport` of internal/transport/udp/udp.go: one socket, and a queue for
-- each peer. A peer's key is a number, an *endpoint is a number with its fields in `endpoint`, and
-- so is the transport that stands for it. Closing a closed channel panics: `none`. The freelist of
-- buffers only saves allocations and is left out.
pub mod Valid
pub mod Steps
pub mod Safety
pub mod Demux
pub mod Race
pub mod Client
mod Tests
use vibe_vpn.Base.{
  ℕ, zero, suc, ◌+◌, ◌≡◌, Bool, true, false, not, ◌||◌, Option, none, some, ◌==◌, ltb,
  if◌then◌else◌, List, [], ◌∷◌, ◌++◌, length, Bytes,
}
use vibe_vpn.Base.Panic.{◌>>=◌}
use vibe_vpn.Base.Assoc.{find, erase, insert}
use vibe_vpn.Session.Pool.{update}

abbrev pub max_datagram : ℕ
max_datagram = 65507

abbrev pub queue_len : ℕ
queue_len = 512

-- `done` of the endpoint is closed, and `closed` is the field of its transport.
pub record Endpoint : Type 0 where
  pub remote : ℕ
  pub queue : List Bytes
  pub is_done : Bool
  pub closed : Bool

pub record UdpServer : Type 0 where
  pub eps : List (ℕ × ℕ)
  pub endpoint : ℕ → Endpoint
  pub next_ref : ℕ
  pub closed : Bool

abbrev pub new_endpoint : ℕ → Endpoint
new_endpoint remote = record { remote = remote; queue = []; is_done = false; closed = false }

abbrev pub set_endpoint : UdpServer → ℕ → Endpoint → UdpServer
set_endpoint s r e = record s { endpoint = update s.endpoint r e }

-- close(ep.done)
unfoldable pub close_done : UdpServer → ℕ → Option UdpServer
close_done s r =
    let e = s.endpoint r in
    if e.is_done then none else some (set_endpoint s r (record e { is_done = true }))

-- What becomes of a datagram, and `blocked` where the read loop waits for room in a queue.
pub data Fate : Type 0 where
  queued dropped blocked : Fate

-- The select at the end of `dispatch`; `pick` is the choice where both cases are ready.
unfoldable pub enqueue : UdpServer → ℕ → Bytes → Bool → Fate × UdpServer
enqueue s r buf pick =
    let e = s.endpoint r in
    let put = set_endpoint s r (record e { queue = e.queue ++ (buf ∷ []) }) in
    if ltb (length e.queue) queue_len
    then (if e.is_done then (if pick then (queued, put) else (dropped, s)) else (queued, put))
    else if e.is_done
    then (dropped, s)
    else (blocked, s)

-- The first critical section of `dispatch`: the endpoint, if there is one, and whether it was known.
unfoldable pub look_up : UdpServer → ℕ → Bool × Option ℕ × UdpServer
look_up s key = elim (find s.eps key) [
  | some r ↦ (true, some r, s)
  | none ↦ if s.closed then (false, none, s) else (
    false,
    some s.next_ref,
    record s {
      eps = insert s.eps key s.next_ref;
      endpoint = update s.endpoint s.next_ref (new_endpoint key);
      next_ref = s.next_ref + 1;
    },
  )
]

-- Rejected: drop and remove.
unfoldable pub reject : UdpServer → ℕ → ℕ → Option (Fate × UdpServer)
unfolding close_done
reject s key r = do s1 ← close_done (record s { eps = erase s.eps key }) r; some (dropped, s1)

-- The rest of `dispatch`. `admits` is what `onNewPeer` returns, or false where there is none. The
-- server may have been closed since: an endpoint made before that goes on to `admits`.
unfoldable pub route_datagram :
    UdpServer → ℕ → Bytes → Bool → Bool → Bool → Option ℕ → Option (Fate × UdpServer)
unfolding reject
route_datagram s key buf pick admits known none = some (dropped, s)
route_datagram s key buf pick admits known (some r) =
    let rejected = reject s key r in
    if known
    then some (enqueue s r buf pick)
    else if s.closed
    then some (dropped, s)
    else if admits
    then some (enqueue s r buf pick)
    else rejected

unfoldable pub dispatch : UdpServer → ℕ → Bytes → Bool → Bool → Option (Fate × UdpServer)
unfolding look_up route_datagram
dispatch s key buf pick admits =
    let (known, r, s1) = look_up s key in route_datagram s1 key buf pick admits known r

-- `Receive` of an endpoint's transport: `none` blocks, the inner one is errClosed. `pick` chooses
-- where a datagram is there and the endpoint is done.
unfoldable pub receive_endpoint : UdpServer → ℕ → Bool → Option (Option Bytes × UdpServer)
receive_endpoint s r pick =
    let e = s.endpoint r in
    elim e.queue [
      | [] ↦ if e.is_done then some (none, s) else none
      | b ∷ rest ↦
          let took = some (some b, set_endpoint s r (record e { queue = rest })) in
          if e.is_done then (if pick then took else some (none, s)) else took
    ]

-- The critical section of `Close` of an endpoint's transport.
unfoldable pub forget : UdpServer → ℕ → UdpServer
forget s r =
    let key = (s.endpoint r).remote in
    record s {
      eps = elim (find s.eps key) [
        | none ↦ s.eps
        | some q ↦ if q == r then erase s.eps key else s.eps
      ];
    }

-- `Close` of an endpoint's transport.
unfoldable pub close_endpoint : UdpServer → ℕ → Option UdpServer
unfolding close_done forget
close_endpoint s r =
    let e = s.endpoint r in
    let s1 = forget (set_endpoint s r (record e { closed = true })) r in
    let closing = close_done s1 r in
    if e.closed then some s else if e.is_done then some s1 else closing

-- `Close` of the server: the section under its mutex, and the loop behind it over the endpoints
-- that it took.
unfoldable pub begin_close : UdpServer → List (ℕ × ℕ) × UdpServer
begin_close s = (s.eps, record s { closed = true; eps = [] })

unfoldable pub close_each : List (ℕ × ℕ) → UdpServer → Option UdpServer
close_each [] s = some s
close_each ((key, r) ∷ eps) s = close_done s r >>= λ s1. close_each eps s1

unfoldable pub close_server : UdpServer → Option UdpServer
close_server s = let (eps, s1) = begin_close s in close_each eps s1

-- `SendTo`, over what the socket says: `none` is the error of the length.
unfoldable pub send_to : (Bytes → Bool) → Bytes → Option Bool
send_to writes b = if length b == 0 || ltb max_datagram (length b) then none else some (writes b)
