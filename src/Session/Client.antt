-- ===== src/Session/Client.antt =====
-- `Client` of internal/session/client.go after its handshake: what a datagram, a packet of the TUN
-- device and the keepalive tick do. An outer `none` is a panic; times are in nanoseconds, and the
-- capture file, the round-trip times and the histogram of sizes are left out.
pub mod Safety
pub mod Connect
pub mod Connected
pub mod Failed
pub mod Run
pub mod Trusted
pub mod Quiet
pub mod Life
pub mod Stuck
pub mod Rounds
mod Tests
use vibe_vpn.Base.{
  ℕ, zero, suc, ◌+◌, ◌-◌, ◌*◌, ◌/◌, ◌%◌, ◌^◌, ◌≡◌, Bool, true, false, not, ◌&&◌, ◌||◌, Option, none,
  some, ◌==◌, ltb, leb, if◌then◌else◌, List, [], ◌∷◌, ◌++◌, length, take, drop, Bytes, put_u32,
  get_be, slice, get_elem?, Result, ok, err, arith, refl, get_be-put_u32,
}
use vibe_vpn.Base.Panic.{◌>>=◌}
use vibe_vpn.Wire.{
  msg_data, msg_keepalive, msg_close, msg_decoy, msg_rekey1, msg_rekey2, msg_rekey3, is_rekey,
}
use vibe_vpn.Framing.{Frame, inner_header_len}
use vibe_vpn.Framing.Shaping.{Shaping, Rng, padding_for}
use vibe_vpn.Session.Keys.{Keys, Error, new_keys, open_wire, seal}
use vibe_vpn.Session.Noise.{Noise, Ciphers}
use vibe_vpn.Session.Cookie.{bytes_eq}
use vibe_vpn.Session.Server.{Counters}

abbrev pub max_wire_seq : ℕ
max_wire_seq = 2 ^ 32 - 1024

pub record ClientEnv (H : Type 0) : Type 0 where
  pub noise : Noise H
  pub mtu : ℕ
  pub rekey_after_packets : ℕ
  pub rekey_after_time : ℕ
  pub shaping : Shaping
  pub rng : Rng
  pub now : ℕ
  pub nonce : Bytes
  pub random : ℕ → Bytes
  pub sends : Bytes → Bool
  pub writes : Bytes → Bool

pub record Client (H : Type 0) : Type 0 where
  pub keys : Option Keys
  pub tag : Bytes
  pub last_rekey : ℕ
  pub rekeying : Bool
  pub rekey_hs : Option H
  pub stats : Counters
  pub last_data_send : ℕ
  pub sent : List Bytes
  pub delivered : List Bytes

-- What `handleFrame` returns.
pub data Reply : Type 0 where
  fine peer_gone rekey_failed : Reply

abbrev pub lost : {H : Type 0} → Client H → Client H
lost c = record c { stats = record (c.stats) { packets_dropped = c.stats.packets_dropped + 1 } }

-- pkt[0]>>4 == 4
unfoldable pub is_ipv4 : Bytes → Bool
is_ipv4 [] = false
is_ipv4 (b ∷ pkt) = b / 2 ^ 4 == 4

-- The prefix, the address and the gateway of the assignment.
unfoldable pub parse_assign : Bytes → Option (Option (ℕ × ℕ × ℕ))
parse_assign b =
    let parsed = get_elem? b 0 >>= λ prefix.
    slice 1 5 b >>= λ ip. slice 5 9 b >>= λ gw. some (some (prefix, get_be ip, get_be gw)) in
    if not (length b == 9) then some none else parsed

module _ {H : Type 0} (env : ClientEnv H) where
  unfoldable pub client_transmit : Client H → ℕ → Keys → Bytes → Bool × Client H
  client_transmit c typ k wire =
      if env.sends wire
      then (
        true,
        record c {
          keys = some k;
          stats = record (c.stats) {
            packets_sent = c.stats.packets_sent + 1;
            bytes_sent = c.stats.bytes_sent + length wire;
          };
          last_data_send = if typ == msg_data then env.now else c.last_data_send;
          sent = c.sent ++ (wire ∷ []);
        },
      )
      else (false, record c { keys = some k })

  unfoldable pub client_encrypt_with : Client H → ℕ → Bytes → Keys → Option (Bool × Client H)
  unfolding client_transmit
  client_encrypt_with c typ pt k = do
    let (n, _) = padding_for env.shaping (inner_header_len + length pt) env.rng
    (wire, _, k1) ← seal k env.nonce c.tag typ pt (env.random n)
    some (client_transmit c typ k1 wire)

  unfoldable pub client_encrypt_send : Client H → ℕ → Bytes → Option (Bool × Client H)
  client_encrypt_send c typ pt = elim c.keys [
    | none ↦ some (false, c)
    | some k ↦
        if c.rekeying && not (is_rekey typ) then some (false, c) else client_encrypt_with c typ pt k
  ]

  unfoldable pub client_handle_data : Client H → Bytes → Client H
  client_handle_data c pt =
      let done = record c {
        stats = record (c.stats) {
          packets_received = c.stats.packets_received + 1;
          bytes_received = c.stats.bytes_received + length pt;
        };
        delivered = c.delivered ++ (pt ∷ []);
      } in
      if ltb env.mtu (length pt) || not (is_ipv4 pt)
      then lost c
      else if env.writes pt
      then done
      else c

  -- A packet of the TUN device.
  unfoldable pub send_packet : Client H → Bytes → Option (Client H)
  send_packet c pkt =
      let sent = client_encrypt_send c msg_data pkt >>= λ r. some (if r.0 then r.1 else lost r.1) in
      if ltb env.mtu (length pkt) || not (is_ipv4 pkt) then some (lost c) else sent

  unfoldable pub start_rekey : Client H → Option (Client H)
  start_rekey c = elim (env.noise.new_client >>= λ h. env.noise.write h []) [
    | none ↦ some c
    | some (m1, _, h) ↦ do
      (sent, c1) ← client_encrypt_send c msg_rekey1 m1
      some (if sent then record c1 { rekey_hs = some h; rekeying = true } else c1)
  ]

  -- k.Seq() >= the two thresholds; the second is off at 0.
  worn : Keys → Bool
  worn k =
      leb max_wire_seq k.send_seq
      || (ltb 0 env.rekey_after_packets && leb env.rekey_after_packets k.send_seq)

  unfoldable pub is_worn : Option Keys → Bool
  unfolding worn
  is_worn none = false
  is_worn (some k) = worn k

  unfoldable pub maybe_rekey : Client H → Option (Client H)
  unfolding is_worn
  maybe_rekey c =
      let started = start_rekey c in
      if is_worn c.keys
      then started
      else if not c.rekeying
          && ltb 0 env.rekey_after_time
          && leb env.rekey_after_time (env.now - c.last_rekey)
      then started
      else some c

  -- After the third message has been written: it is sent under the old keys, then they change.
  unfoldable pub change_keys : Client H → Bytes → Ciphers → Option (Reply × Client H)
  change_keys c m3 ciphers = do
    (sent, c1) ← client_encrypt_send c msg_rekey3 m3
    let changed : Reply × Client H = (
      fine,
      record c1 {
        keys = some (new_keys true ciphers.c2s ciphers.s2c);
        rekeying = false;
        rekey_hs = none;
        last_rekey = env.now;
        stats = record (c1.stats) { rekeys = c1.stats.rekeys + 1 };
      },
    )
    some (if sent then changed else (rekey_failed, c1))

  -- A failed read or write leaves `rekeying` as it is.
  unfoldable pub continue_rekey : Client H → H → Bytes → Option (Reply × Client H)
  unfolding change_keys
  continue_rekey c h msg = elim (env.noise.read h msg) [
    | none ↦ some (rekey_failed, c)
    | some (_, _, h1) ↦ elim (env.noise.write h1 []) [
      | none ↦ some (rekey_failed, record c { rekey_hs = some h1 })
      | some (m3, none, h2) ↦ some (rekey_failed, record c { rekey_hs = some h2 })
      | some (m3, some ciphers, h2) ↦ change_keys (record c { rekey_hs = some h2 }) m3 ciphers
    ]
  ]

  -- `c.rekeyHs` is set whenever `c.rekeying` is; a nil one would panic.
  unfoldable pub rekey2 : Client H → Bytes → Option (Reply × Client H)
  unfolding continue_rekey
  rekey2 c msg =
      let going = c.rekey_hs >>= λ h. continue_rekey c h msg in
      if c.rekeying then going else some (fine, c)

  unfoldable pub client_dispatch : Client H → Frame → Option (Reply × Client H)
  unfolding rekey2
  client_dispatch c f =
      let going = rekey2 c f.payload in
      if f.type == msg_data
      then some (fine, client_handle_data c f.payload)
      else if f.type == msg_keepalive
      then some (fine, c)
      else if f.type == msg_close
      then some (peer_gone, c)
      else if f.type == msg_decoy
      then some (fine, c)
      else if f.type == msg_rekey2
      then going
      else some (fine, c)

  unfoldable pub client_opened : Client H → Result Error Frame × Keys → Option (Reply × Client H)
  unfolding client_dispatch
  client_opened c (err e, k) = some (fine, lost (record c { keys = some k }))
  client_opened c (ok f, k) =
      let seen = client_dispatch (record c { keys = some k }) f in
      if not (bytes_eq f.tag c.tag) then some (fine, lost (record c { keys = some k })) else seen

  unfoldable pub handle_frame : Client H → Bytes → Option (Reply × Client H)
  unfolding client_opened
  handle_frame c msg = elim c.keys [
    | none ↦ some (fine, lost c)
    | some k ↦ open_wire k msg >>= λ r. client_opened c r
  ]
