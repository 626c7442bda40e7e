-- ===== src/Udp/Client.antt =====
-- `Client` of internal/transport/udp/udp.go: a socket with one peer, its reading goroutine, and the
-- queue between that goroutine and Receive.
mod Tests
use vibe_vpn.Base.{
  ℕ, ◌+◌, ◌≡◌, ◌<◌, ◌≤◌, refl, ◌⊎◌, inl, inr, Bool, true, false, not, ◌&&◌, ◌||◌, Option, none,
  some, ◌==◌, ltb, if◌then◌else◌, List, [], ◌∷◌, ◌++◌, length, Bytes, arith,
}
use vibe_vpn.Base.Panic.{◌>>=◌}
use vibe_vpn.Udp.{max_datagram, queue_len}

-- `ch_closed`: recvCh is closed; `is_done`: done is; `reading`: readLoop has not returned; `held`:
-- the datagram that it has read and not yet passed on.
pub record UdpClient : Type 0 where
  pub queue : List Bytes
  pub ch_closed : Bool
  pub is_done : Bool
  pub conn_closed : Bool
  pub reading : Bool
  pub held : Option Bytes

unfoldable pub dial_udp : UdpClient
dial_udp = record {
  queue = [];
  ch_closed = false;
  is_done = false;
  conn_closed = false;
  reading = true;
  held = none;
}

-- The first half of a round of readLoop: an error of the socket, or a datagram.
unfoldable pub read_udp : UdpClient → Option Bytes → UdpClient
read_udp t none = record t { ch_closed = true; reading = false }
read_udp t (some []) = t
read_udp t (some (x ∷ b)) = record t { held = some (x ∷ b) }

-- The second half, its select. `pick` is the choice where both cases are ready; `none` is a select
-- that waits.
unfoldable pub pass_on : UdpClient → Bytes → Bool → Option UdpClient
pass_on t b pick =
    let put = some (record t { queue = t.queue ++ (b ∷ []); held = none }) in
    let stop = some (record t { reading = false; held = none }) in
    if ltb (length t.queue) queue_len
    then (if t.is_done then (if pick then put else stop) else put)
    else if t.is_done
    then stop
    else none

-- What Receive does: a datagram, the error of a closed transport, or it waits.
pub data Received : Type 0 where
  datagram : Bytes → Received
  closed waits : Received

unfoldable pub receive_udp : UdpClient → Received × UdpClient
receive_udp t = elim t.queue [
  | b ∷ queue ↦ (datagram b, record t { queue = queue })
  | [] ↦ if t.ch_closed then (closed, t) else (waits, t)
]

-- The Boolean is success; `writes` is the socket's.
unfoldable pub send_udp : (Bytes → Bool) → UdpClient → Bytes → Bool
send_udp writes t b =
    if length b == 0 || ltb max_datagram (length b)
    then false
    else if t.is_done
    then false
    else writes b

-- Close: `closeOnce` closes `done` once, and then the socket is closed.
unfoldable pub close_client_done : UdpClient → UdpClient
close_client_done t = record t { is_done = true }

unfoldable pub close_conn : UdpClient → UdpClient
close_conn t = record t { conn_closed = true }

-- What may happen next. A socket that is closed gives errors only.
pub data Step (t : UdpClient) : UdpClient → Type 0 where
  fails : t.reading ≡ true → t.held ≡ none → Step t (read_udp t none)
  reads :
      (b : Bytes)
      → t.reading ≡ true
      → t.held ≡ none
      → t.conn_closed ≡ false
      → Step t (read_udp t (some b))
  passes :
      (b : Bytes) (pick : Bool) (t1 : UdpClient)
      → t.reading ≡ true
      → t.held ≡ some b
      → pass_on t b pick ≡ some t1
      → Step t t1
  receives : Step t (receive_udp t).1
  closes_done : Step t (close_client_done t)
  closes_conn : t.is_done ≡ true → Step t (close_conn t)

pub data Steps (t : UdpClient) : UdpClient → Type 0 where
  here : Steps t t
  then_step : (t1 t2 : UdpClient) → Steps t t1 → Step t1 t2 → Steps t t2

-- The goroutine is gone, and nobody will close the queue.
pub record IsStuck (t : UdpClient) : Type 0 where
  pub gone : t.reading ≡ false
  pub unclosed : t.ch_closed ≡ false
  pub drained : t.queue ≡ []

stuck_waits : (t : UdpClient) → IsStuck t → receive_udp t ≡ (waits, t)
unfolding receive_udp
stuck_waits t stuck = ground (arith, stuck.unclosed, stuck.drained)

Step-IsStuck : (t t1 : UdpClient) → IsStuck t → Step t t1 → IsStuck t1
unfolding close_client_done close_conn
Step-IsStuck t _ stuck (fails on free) = absurd (ground (arith, stuck.gone))
Step-IsStuck t _ stuck (reads b on free up) = absurd (ground (arith, stuck.gone))
Step-IsStuck t _ stuck (passes b pick t1 on held e) = absurd (ground (arith, stuck.gone))
Step-IsStuck t _ stuck receives = rw (stuck_waits t stuck) stuck
Step-IsStuck t _ stuck closes_done = record {
  gone = stuck.gone;
  unclosed = stuck.unclosed;
  drained = stuck.drained;
}
Step-IsStuck t _ stuck (closes_conn done) = record {
  gone = stuck.gone;
  unclosed = stuck.unclosed;
  drained = stuck.drained;
}

Steps-IsStuck : (t t1 : UdpClient) → IsStuck t → Steps t t1 → IsStuck t1
Steps-IsStuck t _ stuck here = stuck
Steps-IsStuck t _ stuck (then_step t1 t2 before last) =
    Step-IsStuck t1 t2 (Steps-IsStuck t t1 stuck before) last

-- Close, called on a client that Dial has just made, while its goroutine has read the datagram and
-- not yet passed it on; the select takes `done`.
unfoldable pub close_while_held : Bytes → Option UdpClient
close_while_held b =
    pass_on (close_client_done (read_udp dial_udp (some b))) b false >>= λ t. some (close_conn t)

held_stops :
    (x : ℕ) (b : Bytes)
    → pass_on (close_client_done (read_udp dial_udp (some (x ∷ b)))) (x ∷ b) false
      ≡ some (record dial_udp { is_done = true; reading = false })
unfolding pass_on close_client_done read_udp dial_udp
held_stops x b = refl

close_while_held-Steps :
    (x : ℕ) (b : Bytes) (t : UdpClient) → close_while_held (x ∷ b) ≡ some t → Steps dial_udp t
unfolding close_while_held dial_udp read_udp close_client_done
close_while_held-Steps x b t e =
    let stopped : UdpClient = record dial_udp { is_done = true; reading = false } in
    let same : close_conn stopped ≡ t = ground (arith, held_stops x b) in
    rw (← same) (
      then_step stopped (close_conn stopped)
        (then_step (close_client_done (read_udp dial_udp (some (x ∷ b)))) stopped
          (then_step (read_udp dial_udp (some (x ∷ b)))
            (close_client_done (read_udp dial_udp (some (x ∷ b))))
            (then_step dial_udp (read_udp dial_udp (some (x ∷ b))) here
              (reads (x ∷ b) refl refl refl))
            closes_done)
          (passes (x ∷ b) false stopped refl refl (held_stops x b)))
        (closes_conn refl))

close_while_held-IsStuck :
    (x : ℕ) (b : Bytes) (t : UdpClient) → close_while_held (x ∷ b) ≡ some t → IsStuck t
unfolding close_while_held close_conn dial_udp
close_while_held-IsStuck x b t e =
    let same : close_conn (record dial_udp { is_done = true; reading = false }) ≡ t =
      ground (arith, held_stops x b) in
    rw (← same) (record { gone = refl; unclosed = refl; drained = refl })

-- A client that Dial has just made, whose goroutine holds its first datagram when Close is called:
-- where the select takes `done`, which it may, Close has then done all it does, and Receive waits,
-- whatever happens afterwards.
pub receive_udp_stuck :
    (x : ℕ) (b : Bytes) (t t1 : UdpClient)
    → close_while_held (x ∷ b) ≡ some t
    → Steps t t1
    → Steps dial_udp t
      × (t.is_done ≡ true)
      × (t.conn_closed ≡ true)
      × (receive_udp t1 ≡ (waits, t1))
unfolding close_while_held close_conn
receive_udp_stuck x b t t1 e steps = (
  close_while_held-Steps x b t e,
  ground (arith, held_stops x b),
  ground (arith, held_stops x b),
  stuck_waits t1 (Steps-IsStuck t t1 (close_while_held-IsStuck x b t e) steps),
)

-- What holds of every client that Dial made.
record IsFed (t : UdpClient) : Type 0 where
  fed : (t.reading ≡ true) ⊎ (t.ch_closed ≡ true) ⊎ (t.is_done ≡ true)
  room : length t.queue ≤ queue_len

drained_room : (t : UdpClient) → IsFed t → length ((receive_udp t).1.queue) ≤ queue_len
unfolding receive_udp
drained_room t ok = ground (arith, ok.room)

length_snoc : (bs : List Bytes) (b : Bytes) → length (bs ++ (b ∷ [])) ≡ length bs + 1
length_snoc [] b = refl
length_snoc (x ∷ bs) b = ground (arith, length_snoc bs b)

pass_on-IsFed :
    (t t1 : UdpClient) (b : Bytes) (pick : Bool) → IsFed t → pass_on t b pick ≡ some t1 → IsFed t1
unfolding pass_on
pass_on-IsFed t t1 b pick ok e = record {
  fed = ground (arith, ok.fed);
  room = ground (arith, ok.room, length_snoc t.queue b);
}

Step-IsFed : (t t1 : UdpClient) → IsFed t → Step t t1 → IsFed t1
unfolding close_client_done close_conn read_udp receive_udp
Step-IsFed t _ ok (fails on free) = record { fed = inr (inl refl); room = ok.room }
Step-IsFed t _ ok (reads [] on free up) = ok
Step-IsFed t _ ok (reads (x ∷ b) on free up) = record { fed = ok.fed; room = ok.room }
Step-IsFed t _ ok (passes b pick t1 on held e) = pass_on-IsFed t t1 b pick ok e
Step-IsFed t _ ok receives = record { fed = ground (arith, ok.fed); room = drained_room t ok }
Step-IsFed t _ ok closes_done = record { fed = inr (inr refl); room = ok.room }
Step-IsFed t _ ok (closes_conn done) = record { fed = ok.fed; room = ok.room }

dial_udp-IsFed : IsFed dial_udp
unfolding dial_udp
dial_udp-IsFed = record { fed = inl refl; room = omega arith }

Steps-IsFed : (t t1 : UdpClient) → IsFed t → Steps t t1 → IsFed t1
Steps-IsFed t _ ok here = ok
Steps-IsFed t _ ok (then_step t1 t2 before last) =
    Step-IsFed t1 t2 (Steps-IsFed t t1 ok before) last

-- Whatever has happened to a client since Dial: where Receive waits, the goroutine still reads or
-- Close has been called.
pub receive_udp_fed :
    (t : UdpClient)
    → Steps dial_udp t
    → (receive_udp t).0 ≡ waits
    → (t.reading ≡ true) ⊎ (t.is_done ≡ true)
unfolding receive_udp
receive_udp_fed t steps w =
    let ok = Steps-IsFed dial_udp t dial_udp-IsFed steps in ground (arith, ok.fed)

-- Whatever has happened to a client since Dial, its queue has room for what it holds.
pub queue_bounded : (t : UdpClient) → Steps dial_udp t → length t.queue ≤ queue_len
queue_bounded t steps = (Steps-IsFed dial_udp t dial_udp-IsFed steps).room
