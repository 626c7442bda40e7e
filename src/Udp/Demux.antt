-- ===== src/Udp/Demux.antt =====
-- What the read loop of internal/transport/udp/udp.go makes of the datagrams of many peers.
use vibe_vpn.Base.{
  ℕ, ◌+◌, ◌≤◌, ◌<◌, ◌≡◌, refl, ap, ◌∙◌, sym, true, false, Option, none, some, ◌==◌, if◌then◌else◌,
  List, [], ◌∷◌, ◌++◌, length, length-append, Bytes, arith, Option-cases, Bool-cases, inl, inr,
}
use mathlib.Core.List.{append-nil, append_assoc}
use vibe_vpn.Base.Panic.{◌>>=◌}
use vibe_vpn.Base.Assoc.{find, find-insert}
use vibe_vpn.Udp.{UdpServer, Fate, queue_len, dispatch, look_up, route_datagram, enqueue}
use vibe_vpn.Udp.Valid.{IsValid, find-IsLive}
use vibe_vpn.Udp.Steps.{with_peer, with_peer-IsValid, enqueue-IsValid}

-- The datagrams that wait for the session of a peer.
unfoldable pub queue_of : UdpServer → ℕ → List Bytes
queue_of s key = elim (find s.eps key) [ none ↦ [] | some r ↦ (s.endpoint r).queue ]

-- `dispatch` of one datagram after the other, with the senders' keys. `pick` cannot matter: no
-- endpoint in the table is done.
unfoldable pub read_all : UdpServer → List (ℕ × Bytes) → Option UdpServer
unfolding dispatch
read_all s [] = some s
read_all s ((key, buf) ∷ arrived) = dispatch s key buf true true >>= λ r. read_all r.1 arrived

-- The datagrams of one peer, in their order.
abbrev pub sent_by : ℕ → List (ℕ × Bytes) → List Bytes
sent_by key [] = []
sent_by key ((k, buf) ∷ arrived) =
    if k == key then buf ∷ sent_by key arrived else sent_by key arrived

enqueue-queue_of :
    (s : UdpServer) (key r : ℕ) (buf : Bytes)
    → IsValid s
    → find s.eps key ≡ some r
    → length (queue_of s key) < queue_len
    → let t = (enqueue s r buf true).1 in
      ((j : ℕ) → queue_of t j ≡ (if key == j then queue_of s j ++ (buf ∷ []) else queue_of s j))
      × (t.closed ≡ s.closed)
      × (enqueue s r buf true ≡ (Fate.queued, t))
unfolding enqueue queue_of
enqueue-queue_of s key r buf v e room = (
  λ j. ground (arith, find-IsLive s key r v, find-IsLive s j r v),
  ground arith,
  ground (arith, find-IsLive s key r v),
)

with_peer-queue_of :
    (s : UdpServer) (key j : ℕ)
    → IsValid s
    → find s.eps key ≡ none
    → queue_of (with_peer s key) j ≡ queue_of s j
unfolding queue_of
with_peer-queue_of s key j v e = elim (Option-cases (find s.eps j)) [
  | inl f ↦ ground (arith, find-insert s.eps key s.next_ref j)
  | inr (r, f) ↦ ground (arith, find-insert s.eps key s.next_ref j, find-IsLive s j r v)
]

dispatch-queue_of :
    (s : UdpServer) (key : ℕ) (buf : Bytes)
    → IsValid s
    → s.closed ≡ false
    → length (queue_of s key) < queue_len
    → (t : UdpServer) × (dispatch s key buf true true ≡ some (Fate.queued, t))
      × IsValid t
      × (t.closed ≡ false)
      × ((j : ℕ) → queue_of t j ≡ (if key == j then queue_of s j ++ (buf ∷ []) else queue_of s j))
unfolding dispatch look_up route_datagram
dispatch-queue_of s key buf v up room = elim (Option-cases (find s.eps key)) [
  | inr (r, e) ↦
      let t = (enqueue s r buf true).1 in
      let (q, c, run) = enqueue-queue_of s key r buf v e room in
      (t, ground arith, enqueue-IsValid s r buf true v, ground arith, q)
  | inl e ↦
      let s1 = with_peer s key in
      let w = with_peer-IsValid s key v in
      let r = s.next_ref in
      let t = (enqueue s1 r buf true).1 in
      let same = with_peer-queue_of s key in
      let (q, c, run) = enqueue-queue_of s1 key r buf w (ground arith) (ground (arith, same key)) in
      (
        t,
        ground arith,
        enqueue-IsValid s1 r buf true w,
        ground arith,
        λ j. ground (arith, q j, same j),
      )
]

-- One datagram more in the queue is one less to come.
queue-sent_by :
    (q q1 : List Bytes) (k key : ℕ) (buf : Bytes) (arrived : List (ℕ × Bytes))
    → q1 ≡ (if k == key then q ++ (buf ∷ []) else q)
    → q1 ++ sent_by key arrived ≡ q ++ sent_by key ((k, buf) ∷ arrived)
queue-sent_by q q1 k key buf arrived e = elim (Bool-cases (k == key)) [
  | inl h ↦ ground (arith, append_assoc q (buf ∷ []) (sent_by key arrived))
  | inr h ↦ ground arith
]

room-sent_by :
    (q : List Bytes) (k : ℕ) (buf : Bytes) (arrived : List (ℕ × Bytes))
    → length q + length (sent_by k ((k, buf) ∷ arrived)) ≤ queue_len
    → length q < queue_len
room-sent_by q k buf arrived h = ground arith

room_moved :
    (q s q1 s1 : List Bytes)
    → q1 ++ s1 ≡ q ++ s
    → length q + length s ≤ queue_len
    → length q1 + length s1 ≤ queue_len
room_moved q s q1 s1 e h = ground (arith, ap length e, length-append q s, length-append q1 s1)

-- The datagrams that come in while no session reads: each waits for the session of its own peer,
-- behind the ones that waited there, in the order of arrival, and no other session sees it. The
-- server is open, admits every peer, and no queue comes to hold more than 512.
pub read_all-sent_by :
    (arrived : List (ℕ × Bytes)) (s : UdpServer)
    → IsValid s
    → s.closed ≡ false
    → ((key : ℕ) → length (queue_of s key) + length (sent_by key arrived) ≤ queue_len)
    → (t : UdpServer) × (read_all s arrived ≡ some t)
      × ((key : ℕ) → queue_of t key ≡ queue_of s key ++ sent_by key arrived)
unfolding read_all
read_all-sent_by [] s v up room = (s, refl, λ key. sym (append-nil (queue_of s key)))
read_all-sent_by ((k, buf) ∷ arrived) s v up room =
    let (s1, run, w, up1, q) =
      dispatch-queue_of s k buf v up (room-sent_by (queue_of s k) k buf arrived (room k)) in
    let moved =
      λ (key : ℕ). queue-sent_by (queue_of s key) (queue_of s1 key) k key buf arrived (q key) in
    let (t, rest, queues) =
      read_all-sent_by arrived s1 w up1 (λ key. room_moved _ _ _ _ (moved key) (room key)) in
    (t, ap (λ o. o >>= λ r. read_all r.1 arrived) run ∙ rest, λ key. queues key ∙ moved key)
