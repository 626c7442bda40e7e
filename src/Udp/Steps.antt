-- ===== src/Udp/Steps.antt =====
-- The operations of internal/transport/udp/udp.go and the invariant of Valid.
use vibe_vpn.Base.{
  ℕ, ◌+◌, ◌≡◌, ◌≢◌, refl, Bool, true, false, Option, some, List, [], ◌∷◌, ◌++◌, Bytes, ◌⊎◌, arith,
  Option-cases, Bool-cases, inl, inr,
}
use vibe_vpn.Base.Assoc.{find, erase, insert, find-erase}
use vibe_vpn.Session.Pool.{update}
use vibe_vpn.Udp.{
  UdpServer, Fate, new_endpoint, set_endpoint, close_done, begin_close, close_server, forget,
  close_endpoint, receive_endpoint, dispatch, look_up, route_datagram, reject, enqueue,
}
use vibe_vpn.Udp.Valid.{
  Live, IsValid, IsLive, find-IsLive, erase-Live, update-Live, set-Live, fresh-Live,
  close_each-Live,
}

pub enqueue-IsValid :
    (s : UdpServer) (r : ℕ) (buf : Bytes) (pick : Bool)
    → IsValid s
    → IsValid (enqueue s r buf pick).1
unfolding enqueue IsValid
enqueue-IsValid s r buf pick v =
    let e = s.endpoint r in
    ground
      (arith, set-Live s.endpoint s.next_ref s.eps r (record e { queue = e.queue ++ (buf ∷ []) }))

-- The server with the endpoint that `look_up` makes for a new peer.
abbrev pub with_peer : UdpServer → ℕ → UdpServer
with_peer s key = record s {
  eps = insert s.eps key s.next_ref;
  endpoint = update s.endpoint s.next_ref (new_endpoint key);
  next_ref = s.next_ref + 1;
}

pub with_peer-IsValid : (s : UdpServer) (key : ℕ) → IsValid s → IsValid (with_peer s key)
unfolding IsValid
with_peer-IsValid s key v =
    let ep = update s.endpoint s.next_ref (new_endpoint key) in
    let n = s.next_ref + 1 in
    let rest : Live ep n (erase s.eps key) =
      erase-Live ep n s.eps key (fresh-Live s.endpoint s.next_ref s.eps (new_endpoint key) v) in
    ground (arith, rest, find-erase s.eps key key)

reject-IsValid :
    (s : UdpServer) (key r : ℕ)
    → IsValid s
    → IsLive s key r
    → (s' : UdpServer) × (reject s key r ≡ some (Fate.dropped, s')) × IsValid s'
unfolding reject close_done IsValid
reject-IsValid s key r v x =
    let e = s.endpoint r in
    (
      set_endpoint (record s { eps = erase s.eps key }) r (record e { is_done = true }),
      ground (arith, x.running),
      ground (
        arith,
        x.remote,
        update-Live s.endpoint s.next_ref (erase s.eps key) r (record e { is_done = true }),
        erase-Live s.endpoint s.next_ref s.eps key,
        find-erase s.eps key key,
      ),
    )

-- `dispatch` does not panic, whatever it does with the datagram.
pub dispatch-IsValid :
    (s : UdpServer) (key : ℕ) (buf : Bytes) (pick admits : Bool)
    → IsValid s
    → (f : Fate) × (s' : UdpServer) × (dispatch s key buf pick admits ≡ some (f, s')) × IsValid s'
unfolding dispatch look_up route_datagram
dispatch-IsValid s key buf pick admits v = elim (Option-cases (find s.eps key)) [
  | inl e ↦ elim (Bool-cases s.closed) [
    | inl c ↦ (Fate.dropped, s, ground arith, v)
    | inr c ↦
        let t = with_peer s key in
        let w = with_peer-IsValid s key v in
        elim (Bool-cases admits) [
          | inl y ↦
              let (f, t1) = enqueue t s.next_ref buf pick in
              (f, t1, ground arith, enqueue-IsValid t s.next_ref buf pick w)
          | inr y ↦
              let (t1, run, ok) =
                reject-IsValid t key s.next_ref w (find-IsLive t key s.next_ref w (ground arith)) in
              (Fate.dropped, t1, ground arith, ok)
        ]
  ]
  | inr (r, e) ↦
      let (f, s1) = enqueue s r buf pick in (f, s1, ground arith, enqueue-IsValid s r buf pick v)
]

-- A queue has a first datagram or none.
queue-cases : (q : List Bytes) → (q ≡ []) ⊎ ((b : Bytes) × (rest : List Bytes) × (q ≡ b ∷ rest))
queue-cases [] = inl refl
queue-cases (b ∷ rest) = inr (b, rest, refl)

pub receive_endpoint-IsValid :
    (s s' : UdpServer) (r : ℕ) (pick : Bool) (b : Option Bytes)
    → IsValid s
    → receive_endpoint s r pick ≡ some (b, s')
    → IsValid s'
unfolding receive_endpoint IsValid
receive_endpoint-IsValid s s' r pick b v e = elim (queue-cases (s.endpoint r).queue) [
  | inl f ↦ ground arith
  | inr (x, rest, f) ↦
      let ep = s.endpoint r in
      ground (arith, set-Live s.endpoint s.next_ref s.eps r (record ep { queue = rest }))
]

-- The table after `forget` does not name the endpoint.
forget-IsValid :
    (s : UdpServer) (r : ℕ)
    → IsValid s
    → IsValid (forget s r) × (find (forget s r).eps (s.endpoint r).remote ≢ some r)
unfolding forget IsValid
forget-IsValid s r v =
    let key = (s.endpoint r).remote in
    elim (Option-cases (find s.eps key)) [
      | inl e ↦ (ground arith, ground arith)
      | inr (q, e) ↦ (
        ground (arith, erase-Live s.endpoint s.next_ref s.eps key),
        ground (arith, find-erase s.eps key key),
      )
    ]

-- An endpoint that the table does not name may be closed.
close_done-IsValid :
    (s : UdpServer) (r : ℕ)
    → IsValid s
    → (s.endpoint r).is_done ≡ false
    → find s.eps (s.endpoint r).remote ≢ some r
    → (s' : UdpServer) × (close_done s r ≡ some s') × IsValid s'
unfolding close_done IsValid
close_done-IsValid s r v run gone =
    let e = record (s.endpoint r) { is_done = true } in
    (set_endpoint s r e, ground arith, update-Live s.endpoint s.next_ref s.eps r e v gone)

mark-IsValid :
    (s : UdpServer) (r : ℕ)
    → IsValid s
    → let e = s.endpoint r in IsValid (set_endpoint s r (record e { closed = true }))
unfolding IsValid
mark-IsValid s r v =
    let e = s.endpoint r in
    ground (arith, set-Live s.endpoint s.next_ref s.eps r (record e { closed = true }))

pub close_endpoint-IsValid :
    (s : UdpServer) (r : ℕ)
    → IsValid s
    → (s' : UdpServer) × (close_endpoint s r ≡ some s') × IsValid s'
unfolding close_endpoint forget
close_endpoint-IsValid s r v =
    let e = s.endpoint r in
    let t = set_endpoint s r (record e { closed = true }) in
    let (w, gone) = forget-IsValid t r (mark-IsValid s r v) in
    elim (Bool-cases e.closed) [
      | inl c ↦ (s, ground arith, v)
      | inr c ↦ elim (Bool-cases e.is_done) [
        | inl y ↦ (forget t r, ground arith, w)
        | inr y ↦
            let (s', run, ok) = close_done-IsValid (forget t r) r w (ground arith) (ground arith) in
            (s', ground arith, ok)
      ]
    ]

pub close_server-IsValid :
    (s : UdpServer) → IsValid s → (s' : UdpServer) × (close_server s ≡ some s') × IsValid s'
unfolding close_server begin_close IsValid
close_server-IsValid s v =
    let (s', run, same, shut) = close_each-Live s.eps (begin_close s).1 v in
    (s', ground arith, ground arith)
