-- ===== src/Session/Server.antt =====
-- `serverSession` of internal/session/server.go: one session's reaction to a datagram, to the
-- ticker and to replies, together with the manager that it shares. `entry` of the manager holds
-- the fields `clientKey`, `requestedIP`, `ip` and `transferred`. An outer `none` is a panic.
pub mod Run
pub mod Handshaken
pub mod Trusted
pub mod Life
pub mod Handle
pub mod Deliver
pub mod Rekeying
mod Tests
use vibe_vpn.Base.{
  ℕ, zero, suc, ◌+◌, ◌-◌, ◌*◌, ◌/◌, ◌%◌, ◌^◌, ◌≡◌, ◌≢◌, ◌≤◌, ◌<◌, Bool, true, false, not, ◌&&◌,
  ◌||◌, Option, none, some, ◌==◌, ltb, leb, if◌then◌else◌, List, [], ◌∷◌, ◌++◌, length, take, drop,
  Bytes, put_u32, get_be, slice, get_elem?, Result, ok, err, arith, refl, replicate,
}
use vibe_vpn.Base.Panic.{◌>>=◌}
use vibe_vpn.Aead.{Aead}
use vibe_vpn.Wire.{
  msg_data, msg_keepalive, msg_close, msg_decoy, msg_rekey1, msg_rekey2, msg_rekey3, msg_assign,
  is_rekey, cookie_len, max_payload,
}
use vibe_vpn.Framing.{Frame, inner_header_len}
use vibe_vpn.Framing.Shaping.{Shaping, Rng, padding_for}
use vibe_vpn.Ippkt
use vibe_vpn.Ippkt.{Header}
use vibe_vpn.Session.Keys.{Keys, new_keys, seal}
use vibe_vpn.Session.Noise.{Noise, Ciphers}
use vibe_vpn.Session.Cookie.{RateBucket, require_cookie, cookie_for, valid_cookie, bytes_eq}
use vibe_vpn.Session.Manager.{Manager, Entry}
use vibe_vpn.Session.Manager.Adopt.{adopt, allow_peer, set_client_key, remove}

-- What a reaction takes from outside: the configuration, the clock, the random bytes, the
-- transport and the TUN device. `sends` and `writes` say whether a write succeeds.
pub record Env (H : Type 0) : Type 0 where
  pub noise : Noise H
  pub mac : Bytes → Bytes → Bytes
  pub secret : Bytes
  pub mtu : ℕ
  pub session_timeout : ℕ
  pub handshake_timeout : ℕ
  pub shaping : Shaping
  pub rng : Rng
  pub now : ℕ
  pub nonce : Bytes
  pub random : ℕ → Bytes
  -- The address of the peer, if the transport tells, by its number and by its bytes.
  pub peer_ip : Option (ℕ × Bytes)
  pub sends : Bytes → Bool
  pub writes : Bytes → Bool

-- Counters of `Stats` that the session writes, without the histogram of sizes.
pub record Counters : Type 0 where
  pub packets_sent : ℕ
  pub bytes_sent : ℕ
  pub packets_received : ℕ
  pub bytes_received : ℕ
  pub packets_dropped : ℕ
  pub rekeys : ℕ

pub record Session (H : Type 0) : Type 0 where
  pub self : ℕ
  pub created : ℕ
  pub hs : Option H
  pub tag : Bytes
  pub rekey_hs : Option H
  pub rekeying : Bool
  pub rekey_start : ℕ
  pub keys : Option Keys
  pub stats : Counters
  pub last_recv : ℕ
  pub last_data_send : ℕ

-- The shared manager with its rate limits, the session, what went to the transport and what went
-- to the TUN device.
pub record Server (H : Type 0) : Type 0 where
  pub mgr : Manager
  pub rate : ℕ → Option RateBucket
  pub session : Session H
  pub sent : List Bytes
  pub delivered : List Bytes

-- What `handle` returns, as far as its caller looks: whether it is errFatal.
pub data Verdict : Type 0 where
  go_on fatal : Verdict

abbrev pub own : {H : Type 0} → Server H → Entry
own st = st.mgr.entry st.session.self

abbrev pub drop_packet : {H : Type 0} → Server H → Server H
drop_packet st = record st {
  session = record (st.session) {
    stats = record (st.session.stats) { packets_dropped = st.session.stats.packets_dropped + 1 };
  };
}

-- b[0] = byte(prefix); copy(b[1:5], ip); copy(b[5:9], gw). A nil address leaves four zeros.
unfoldable pub assign_payload : ℕ → Option ℕ → ℕ → Bytes
assign_payload prefix none gw = (prefix % 2 ^ 8) ∷ (put_u32 0 ++ put_u32 gw)
assign_payload prefix (some ip) gw = (prefix % 2 ^ 8) ∷ (put_u32 ip ++ put_u32 gw)

module _ {H : Type 0} (env : Env H) where
  -- The end of `encryptSend`, after the frame is sealed.
  unfoldable pub transmit : Server H → ℕ → Keys → Bytes → Bool × Server H
  transmit st typ k wire =
      let s = st.session in
      let kept = record st { session = record s { keys = some k } } in
      if env.sends wire
      then (
        true,
        record st {
          session = record s {
            keys = some k;
            stats = record (s.stats) {
              packets_sent = s.stats.packets_sent + 1;
              bytes_sent = s.stats.bytes_sent + length wire;
            };
            last_data_send = if typ == msg_data then env.now else s.last_data_send;
          };
          sent = st.sent ++ (wire ∷ []);
        },
      )
      else (false, kept)

  unfoldable pub encrypt_with : Server H → ℕ → Bytes → Keys → Option (Bool × Server H)
  unfolding transmit
  encrypt_with st typ pt k = do
    let (n, _) = padding_for env.shaping (inner_header_len + length pt) env.rng
    (wire, _, k1) ← seal k env.nonce st.session.tag typ pt (env.random n)
    some (transmit st typ k1 wire)

  unfoldable pub encrypt_send : Server H → ℕ → Bytes → Option (Bool × Server H)
  encrypt_send st typ pt = elim st.session.keys [
    | none ↦ some (false, st)
    | some k ↦
        if st.session.rekeying && not (is_rekey typ)
        then some (false, st)
        else encrypt_with st typ pt k
  ]

  unfoldable pub send_raw : Server H → Bytes → Server H
  send_raw st b =
      if length b == 0 || ltb max_payload (length b)
      then st
      else if env.sends b
      then record st { sent = st.sent ++ (b ∷ []) }
      else st

  -- A frame is sent and its success is not looked at.
  unfoldable pub send_then_go_on : Server H → ℕ → Bytes → Option (Verdict × Server H)
  send_then_go_on st typ pt = do (_, st1) ← encrypt_send st typ pt; some (go_on, st1)

  -- The Noise part of `handshake1`, on the message without its cookie.
  unfoldable pub noise1 : Server H → Bytes → Verdict × Server H
  unfolding send_raw
  noise1 st msg = elim (env.noise.new_server >>= λ h. env.noise.read h msg) [
    | none ↦ (fatal, st)
    | some (payload, _, h) ↦
        if not (length payload == 4)
        then (fatal, st)
        else (let tagged = record st { session = record (st.session) { tag = payload } } in
            elim (env.noise.write h []) [
              | none ↦ (go_on, tagged)
              | some (m2, _, h2) ↦ (
                go_on,
                send_raw (record tagged { session = record (tagged.session) { hs = some h2 } }) m2,
              )
            ])
  ]

  -- The part of `handshake1` that answers with a cookie instead.
  unfoldable pub cookie_gate : Server H → Bytes → Option Bytes → ℕ × Bytes → Verdict × Server H
  unfolding noise1 send_raw
  cookie_gate st msg none (key, ip) =
      let (must, rate) = require_cookie st.rate key env.now in
      let st1 = record st { rate = rate } in
      if must
      then (go_on, send_raw st1 (cookie_for env.mac env.secret ip env.now))
      else noise1 st1 msg
  cookie_gate st msg (some cookie) (key, ip) =
      if not (valid_cookie env.mac env.secret ip cookie env.now)
      then (go_on, send_raw st (cookie_for env.mac env.secret ip env.now))
      else noise1 st msg

  unfoldable pub gate : Server H → Bytes → Option Bytes → Verdict × Server H
  gate st msg cookie = elim env.peer_ip [
    | none ↦ noise1 st msg
    | some peer ↦ cookie_gate st msg cookie peer
  ]

  -- `handle` calls it only while `hs` and `keys` are nil. 52 bytes, or 84 with a cookie behind.
  unfoldable pub handshake1 : Server H → Bytes → Verdict × Server H
  unfolding gate
  handshake1 st msg =
      if length msg == 52 + cookie_len
      then gate st (take (length msg - cookie_len) msg) (some (drop (length msg - cookie_len) msg))
      else if length msg == 52
      then gate st msg none
      else (fatal, st)

  -- The end of `handshake3`: the keys, and the assignment.
  unfoldable pub establish : Server H → Manager → Ciphers → Option (Verdict × Server H)
  unfolding send_then_go_on
  establish st mgr c =
      let st1 = record st {
        mgr = mgr;
        session = record (st.session) { keys = some (new_keys false c.c2s c.s2c); hs = none };
      } in
      send_then_go_on st1 msg_assign (assign_payload mgr.prefix (own st1).ip mgr.gw)

  unfoldable pub admit : Server H → ℕ → Ciphers → Option (Verdict × Server H)
  unfolding establish
  admit st key c =
      let mgr = set_client_key st.mgr st.session.self key in
      let failed : Verdict × Server H = (fatal, record st { mgr = mgr }) in
      let adopted = adopt mgr st.session.self key >>= λ r. elim r [
        | err e ↦ some failed
        | ok mgr1 ↦ establish st mgr1 c
      ] in
      if not (allow_peer mgr key) then some failed else adopted

  -- A message after which the handshake is not finished, or that reveals no key, would make
  -- `newKeys` or the allowlist run on nil; that is a panic here, as it is there for the ciphers.
  unfoldable pub handshake3 : Server H → H → Bytes → Option (Verdict × Server H)
  unfolding admit
  handshake3 st h msg = elim (env.noise.read h msg) [
    | none ↦ some (fatal, st)
    | some (_, ciphers, h1) ↦ do
      c ← ciphers
      key ← env.noise.peer_static h1
      admit (record st { session = record (st.session) { hs = some h1 } }) key c
  ]
