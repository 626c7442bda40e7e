-- ===== src/Session/Client/Connect.antt =====
-- `connect`, `handshake`, the two waits, `reconnect` and `teardownTransport` of
-- internal/session/client.go. What the select statements of the waits see is a list of events;
-- with none left a wait blocks. The outer `none` is a panic.
use vibe_vpn.Base.{
  ℕ, ◌+◌, Bool, true, false, not, ◌&&◌, ◌||◌, Option, none, some, ◌==◌, ltb, if◌then◌else◌, List,
  [], ◌∷◌, ◌++◌, length, Bytes, Result, ok, err,
}
use vibe_vpn.Base.Panic.{◌>>=◌}
use vibe_vpn.Wire.{cookie_len, max_payload, msg_assign}
use vibe_vpn.Framing.{Frame}
use vibe_vpn.Session.Keys.{Keys, Error, new_keys, open_wire}
use vibe_vpn.Session.Cookie.{bytes_eq}
use vibe_vpn.Session.Client.{ClientEnv, Client, parse_assign}

-- A datagram of `recvCh`, an error of the transport, the timer, and the end of the context.
pub data Event : Type 0 where
  received : Bytes → Event
  broken timed_out cancelled : Event

-- How a wait ends: with a value and the events that are left, with an error, or not at all.
pub data Wait (A : Type 0) : Type 0 where
  done : A → List Event → Wait A
  failed : Wait A
  blocked : Wait A

-- The fields of `Client` that a connection sets up, next to those of its session.
pub record Tunnel (H : Type 0) : Type 0 where
  pub session : Client H
  pub ip : Option ℕ
  pub gw : Option ℕ
  pub prefix : ℕ
  pub requested_ip : Option ℕ
  pub connected : Bool
  pub has_transport : Bool
  pub last_recv : ℕ
  pub handshakes : ℕ
  pub reconnects : ℕ

-- The first error of `sendRaw` is that of the length, the second that of the transport.
unfoldable pub client_send_raw : {H : Type 0} → ClientEnv H → Client H → Bytes → Option (Client H)
client_send_raw env c b =
    if length b == 0 || ltb max_payload (length b)
    then none
    else if env.sends b
    then some (record c { sent = c.sent ++ (b ∷ []) })
    else none

unfoldable pub teardown : {H : Type 0} → Tunnel H → Tunnel H
teardown t = record t {
  connected = false;
  has_transport = false;
  session = record (t.session) { rekeying = false; rekey_hs = none; keys = none };
}

module _ {H : Type 0} (env : ClientEnv H) where
  -- The Boolean is `*cookie != nil`, the message is `*m1`.
  unfoldable pub wait_reply : List Event → Client H → H → Bool → Bytes → Client H × Wait H
  wait_reply [] c hs cookie m1 = (c, blocked)
  wait_reply (broken ∷ evs) c hs cookie m1 = (c, failed)
  wait_reply (timed_out ∷ evs) c hs cookie m1 = (c, failed)
  wait_reply (cancelled ∷ evs) c hs cookie m1 = (c, failed)
  wait_reply (received b ∷ evs) c hs cookie m1 =
      let ignore = wait_reply evs c hs cookie m1 in
      let retry : Client H × Wait H = elim (client_send_raw env c (m1 ++ b)) [
        | none ↦ (c, failed)
        | some c1 ↦ wait_reply evs c1 hs true (m1 ++ b)
      ] in
      elim (env.noise.read hs b) [
        | some (_, _, h1) ↦ (c, done h1 evs)
        | none ↦ if length b == cookie_len && not cookie then retry else ignore
      ]

  -- A frame that opened, in the wait for the assignment: its payload, if it is the assignment.
  unfoldable pub assignment : Client H → Result Error Frame → Option Bytes
  assignment c (err e) = none
  assignment c (ok f) =
      if not (bytes_eq f.tag c.tag)
      then none
      else if f.type == msg_assign
      then some f.payload
      else none

  unfoldable pub wait_assign : List Event → Client H → Keys → Option (Client H × Wait Bytes)
  unfolding assignment
  wait_assign [] c k = some (record c { keys = some k }, blocked)
  wait_assign (broken ∷ evs) c k = some (record c { keys = some k }, failed)
  wait_assign (timed_out ∷ evs) c k = some (record c { keys = some k }, failed)
  wait_assign (cancelled ∷ evs) c k = some (record c { keys = some k }, failed)
  wait_assign (received b ∷ evs) c k = open_wire k b >>= λ r. elim (assignment c r.0) [
    | some payload ↦ some (record c { keys = some r.1 }, done payload evs)
    | none ↦ wait_assign evs c r.1
  ]

  -- The end of `handshake`: `true` is success.
  unfoldable pub assigned : Tunnel H → Bytes → Option (Bool × Tunnel H)
  assigned t payload = do
    parsed ← parse_assign payload
    elim parsed [
      | none ↦ some (false, record t { session = record (t.session) { keys = none } })
      | some (prefix, ip, gw) ↦ some (
        true,
        record t {
          ip = some ip;
          gw = some gw;
          prefix = prefix;
          requested_ip = some ip;
          connected = true;
          session = record (t.session) { last_rekey = env.now };
          handshakes = t.handshakes + 1;
        },
      )
    ]

  -- What a handshake leaves: a result, or a client that still waits.
  pub data Outcome : Type 0 where
    ended : Bool → Tunnel H → Outcome
    waiting : Tunnel H → Outcome

  unfoldable pub settle : Tunnel H → Client H → Wait Bytes → Option Outcome
  unfolding assigned
  settle t c blocked = some (waiting (record t { session = c }))
  settle t c failed = some (ended false (record t { session = record c { keys = none } }))
  settle t c (done payload evs) = do
    (good, t1) ← assigned (record t { session = c }) payload
    some (ended good t1)

  -- After the reply: message 3, the keys, the assignment.
  unfoldable pub finish_handshake : Tunnel H → Client H → H → Bytes → List Event → Option Outcome
  unfolding settle
  finish_handshake t c h2 tag evs =
      let fails : Option Outcome = some (ended false (record t { session = c })) in
      elim (env.noise.write h2 []) [
        | none ↦ fails
        | some (m3, none, h3) ↦ fails
        | some (m3, some cs, h3) ↦ elim (client_send_raw env c m3) [
          | none ↦ fails
          | some c1 ↦ do
            (c2, w) ← wait_assign evs (record c1 { tag = tag }) (new_keys true cs.c2s cs.s2c)
            settle t c2 w
        ]
      ]

  unfoldable pub replied : Tunnel H → Bytes → Client H × Wait H → Option Outcome
  unfolding finish_handshake
  replied t tag (c, blocked) = some (waiting (record t { session = c }))
  replied t tag (c, failed) = some (ended false (record t { session = c }))
  replied t tag (c, done h2 rest) = finish_handshake t c h2 tag rest

  -- `tag` is what randomTag returns.
  unfoldable pub handshake : Tunnel H → Bytes → List Event → Option Outcome
  unfolding replied
  handshake t tag evs = elim (env.noise.new_client >>= λ h. env.noise.write h tag) [
    | none ↦ some (ended false t)
    | some (m1, _, h1) ↦ elim (client_send_raw env t.session m1) [
      | none ↦ some (ended false t)
      | some c ↦ replied t tag (wait_reply evs c h1 false m1)
    ]
  ]

  -- `dials` says whether cfg.Dial succeeds.
  unfoldable pub connect : Bool → Tunnel H → Bytes → List Event → Option Outcome
  connect dials t tag evs =
      if dials
      then handshake (record (teardown t) { has_transport = true }) tag evs
      else some (ended false (teardown t))

-- One round of the loop of `reconnect`: whether the dial succeeds, the tag, and what happens.
pub record Attempt : Type 0 where
  pub dials : Bool
  pub tag : Bytes
  pub events : List Event

module _ {H : Type 0} (env : ClientEnv H) where
  -- Rounds that are not there have not happened yet.
  unfoldable pub retry : List Attempt → Tunnel H → Option (Outcome env)
  retry [] t = some (waiting t)
  retry (a ∷ more) t =
      let again = λ (t1 : Tunnel H). retry more (record t1 { reconnects = t1.reconnects + 1 }) in
      connect env a.dials t a.tag a.events >>= λ o. elim o [
        | waiting t1 ↦ some (waiting t1)
        | ended true t1 ↦ some (ended true (record t1 { last_recv = env.now }))
        | ended false t1 ↦ again t1
      ]

  unfoldable pub reconnect : List Attempt → Tunnel H → Option (Outcome env)
  reconnect attempts t = retry attempts (teardown (record t { reconnects = t.reconnects + 1 }))
