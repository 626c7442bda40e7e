-- ===== src/Session/Server/Handle.antt =====
-- `handle`, its cases and the loop around it, of internal/session/server.go.
use vibe_vpn.Base.{
  ℕ, ◌+◌, ◌-◌, Bool, true, false, not, ◌&&◌, Option, none, some, ◌==◌, ltb, if◌then◌else◌, [], ◌∷◌,
  ◌++◌, length, Bytes, get_be, Result, ok, err,
}
use vibe_vpn.Base.Panic.{◌>>=◌}
use vibe_vpn.Wire.{
  msg_data, msg_keepalive, msg_close, msg_decoy, msg_rekey1, msg_rekey2, msg_rekey3,
}
use vibe_vpn.Framing.{Frame}
use vibe_vpn.Ippkt
use vibe_vpn.Ippkt.{Header}
use vibe_vpn.Session.Keys.{Keys, Error, new_keys, open_wire}
use vibe_vpn.Session.Noise.{Ciphers}
use vibe_vpn.Session.Cookie.{bytes_eq}
use vibe_vpn.Session.Manager.Adopt.{remove}
use vibe_vpn.Session.Server.{
  Env, Server, Verdict, go_on, fatal, own, drop_packet, encrypt_send, send_then_go_on, handshake1,
  handshake3,
}

-- s.rekeying = false; s.rekeyHs = nil
abbrev pub abort_rekey : {H : Type 0} → Server H → Server H
abort_rekey st = record st { session = record (st.session) { rekeying = false; rekey_hs = none } }

-- `ip == nil` is no address; the source of the packet is compared as a number.
abbrev pub is_source : Option ℕ → ℕ → Bool
is_source none src = false
is_source (some ip) src = src == ip

abbrev pub is_key : Option ℕ → Option ℕ → Bool
is_key none none = true
is_key none (some b) = false
is_key (some a) none = false
is_key (some a) (some b) = a == b

module _ {H : Type 0} (env : Env H) where
  -- The end of `handleData`: the packet goes to the TUN device.
  unfoldable pub deliver : Server H → Bytes → Server H
  deliver st pt =
      let s = st.session in
      if env.writes pt
      then record st {
        session = record s {
          stats = record (s.stats) {
            packets_received = s.stats.packets_received + 1;
            bytes_received = s.stats.bytes_received + length pt;
          };
        };
        delivered = st.delivered ++ (pt ∷ []);
      }
      else st

  unfoldable pub from_source : Server H → Bytes → Option Header → Server H
  unfolding deliver
  from_source st pt none = drop_packet st
  from_source st pt (some h) =
      if not (is_source (own st).ip (get_be h.src)) then drop_packet st else deliver st pt

  -- The test of `s.ip == nil` comes before the packet is parsed; `is_source` is false there too.
  unfoldable pub handle_data : Server H → Bytes → Option (Server H)
  unfolding from_source
  handle_data st pt =
      let parsed = Ippkt.parse pt >>= λ header. some (from_source st pt header) in
      if ltb env.mtu (length pt)
      then some (drop_packet st)
      else elim (own st).ip [ none ↦ some (drop_packet st) | some _ ↦ parsed ]

  -- The answer to a first rekey message, when the Noise library takes it.
  unfoldable pub begin_rekey : Server H → H → Bytes → Option (Verdict × Server H)
  begin_rekey st h m2 =
      let st1 = record st {
        session = record (st.session) { rekey_hs = some h; rekeying = true; rekey_start = env.now };
      } in
      send_then_go_on env st1 msg_rekey2 m2

  unfoldable pub rekey1 : Server H → Bytes → Option (Verdict × Server H)
  unfolding begin_rekey
  rekey1 st msg =
      let answer =
        env.noise.new_server >>= λ h. env.noise.read h msg >>= λ r. env.noise.write r.2 [] in
      if st.session.rekeying
      then some (go_on, st)
      else elim answer [ none ↦ some (go_on, st) | some (m2, _, h) ↦ begin_rekey st h m2 ]

  unfoldable pub switch_keys : Server H → Ciphers → Server H
  switch_keys st c = record st {
    session = record (st.session) {
      keys = some (new_keys false c.c2s c.s2c);
      rekeying = false;
      rekey_hs = none;
      stats = record (st.session.stats) { rekeys = st.session.stats.rekeys + 1 };
    };
  }

  unfoldable pub finish_rekey : Server H → Bytes → H → Option (Server H)
  unfolding switch_keys
  finish_rekey st msg h = elim (env.noise.read h msg) [
    | none ↦ some (abort_rekey st)
    | some (_, ciphers, h1) ↦
        if not (is_key (env.noise.peer_static h1) (own st).client_key)
        then some (abort_rekey st)
        else elim ciphers [ none ↦ none | some c ↦ some (switch_keys st c) ]
  ]

  unfoldable pub rekey3 : Server H → Bytes → Option (Server H)
  unfolding finish_rekey
  rekey3 st msg = elim st.session.rekey_hs [
    | none ↦ some st
    | some h ↦ if not st.session.rekeying then some st else finish_rekey st msg h
  ]

  -- The switch over the type of a frame that opened and bears the tag of the session.
  unfoldable pub dispatch : Server H → Frame → Option (Verdict × Server H)
  unfolding rekey1 rekey3 handle_data
  dispatch st f =
      let data_case = handle_data st f.payload >>= λ st1. some (go_on, st1) in
      let rekey3_case = rekey3 st f.payload >>= λ st1. some (go_on, st1) in
      if f.type == msg_data
      then data_case
      else if f.type == msg_keepalive
      then send_then_go_on env st msg_keepalive f.payload
      else if f.type == msg_close
      then some (fatal, st)
      else if f.type == msg_decoy
      then some (go_on, st)
      else if f.type == msg_rekey1
      then rekey1 st f.payload
      else if f.type == msg_rekey3
      then rekey3_case
      else some (go_on, st)

  unfoldable pub opened : Server H → Result Error Frame × Keys → Option (Verdict × Server H)
  unfolding dispatch
  opened st (err e, k) =
      some (go_on, drop_packet (record st { session = record (st.session) { keys = some k } }))
  opened st (ok f, k) =
      let st1 = record st { session = record (st.session) { keys = some k } } in
      let seen = dispatch st1 f in
      if not (bytes_eq f.tag st.session.tag) then some (go_on, drop_packet st1) else seen

  unfoldable pub handle : Server H → Bytes → Option (Verdict × Server H)
  unfolding opened
  handle st msg = elim st.session.keys [
    | none ↦ elim st.session.hs [
      | none ↦ some (handshake1 env st msg)
      | some h ↦ handshake3 env st h msg
    ]
    | some k ↦ open_wire k msg >>= λ r. opened st r
  ]

  -- A received datagram. The Boolean says whether the session goes on.
  unfoldable pub drain_recv : Server H → Bytes → Option (Bool × Server H)
  drain_recv st msg = do
    (verdict, st1) ←
        handle (record st { session = record (st.session) { last_recv = env.now } }) msg
    elim verdict [ go_on ↦ some (true, st1) | fatal ↦ some (false, st1) ]

  -- A packet that the manager put into `replyCh`.
  unfoldable pub send_queued : Server H → Bytes → Option (Server H)
  send_queued st pkt =
      let sent = encrypt_send env st msg_data pkt >>= λ r. some r.1 in
      elim (own st).ip [ none ↦ some st | some _ ↦ sent ]

  unfoldable pub has_keys : Option Keys → Bool
  has_keys none = false
  has_keys (some k) = true

  -- The ticker, once a second.
  unfoldable pub tick : Server H → Option (Bool × Server H)
  unfolding has_keys
  tick st =
      let s = st.session in
      let closed = encrypt_send env st msg_close [] >>= λ r. some (false, r.1) in
      if not (has_keys s.keys) && ltb env.handshake_timeout (env.now - s.created)
      then some (false, st)
      else if ltb env.session_timeout (env.now - s.last_recv)
      then closed
      else if s.rekeying && ltb env.handshake_timeout (env.now - s.rekey_start)
      then some (true, abort_rekey st)
      else some (true, st)

  -- What is left to do when `run` returns; the transport is closed before the last message.
  unfoldable pub finish : Server H → Option (Server H)
  finish st =
      let st1 = record st { mgr = remove st.mgr st.session.self } in
      let closing = encrypt_send env st1 msg_close [] >>= λ r. some r.1 in
      if not st.session.rekeying then closing else some st1
