-- ===== src/Session/Join/Client.antt =====
-- The client's side of the handshake, in internal/session/client.go.
use vibe_vpn.Base.{ℕ, ◌+◌, ◌≡◌, true, false, some, [], ◌∷◌, ◌++◌, length, Bytes, ok, arith, refl}
use vibe_vpn.Wire.{msg_assign}
use vibe_vpn.Session.Keys.{Keys, new_keys, open_wire}
use vibe_vpn.Session.Noise.{Ciphers}
use vibe_vpn.Session.Cookie.{bytes_eq}
use vibe_vpn.Session.Server.{Env}
use vibe_vpn.Session.Client.{ClientEnv, Client, parse_assign}
use vibe_vpn.Session.Client.Connect.{
  received, done, Tunnel, teardown, client_send_raw, wait_reply, assignment, wait_assign, assigned,
  ended, settle, finish_handshake, replied, handshake, connect,
}
use vibe_vpn.Session.Join.{Run}

module _ {H : Type 0} (ce : ClientEnv H) (se : Env H) (tag : Bytes) (key : ℕ) (cs : Ciphers)
    (run : Run ce.noise se.noise tag key cs) (tag4 : length tag ≡ 4)
    (client_sends : (b : Bytes) → ce.sends b ≡ true)
    (server_sends : (b : Bytes) → se.sends b ≡ true) where
  -- The client after its two messages, before the assignment.
  abbrev pub asked : Tunnel H → Client H
  asked t = record (teardown t).session {
    sent = ((teardown t).session.sent ++ (run.m1 ∷ [])) ++ (run.m3 ∷ []);
    tag = tag;
  }

  client_sends1 :
      (c : Client H)
      → client_send_raw ce c run.m1 ≡ some (record c { sent = c.sent ++ (run.m1 ∷ []) })
  unfolding client_send_raw
  client_sends1 c = ground (arith, run.sizes, client_sends run.m1)

  client_sends3 :
      (c : Client H)
      → client_send_raw ce c run.m3 ≡ some (record c { sent = c.sent ++ (run.m3 ∷ []) })
  unfolding client_send_raw
  client_sends3 c = ground (arith, run.sizes, client_sends run.m3)

  client_reads2 :
      (c : Client H) (b : Bytes)
      → wait_reply ce (received run.m2 ∷ received b ∷ []) c run.c1 false run.m1
        ≡ (c, done run.c2 (received b ∷ []))
  unfolding wait_reply
  client_reads2 c b = ground (arith, run.reads2)

  bytes_eq_same : (b : Bytes) → bytes_eq b b ≡ true
  bytes_eq_same [] = refl
  bytes_eq_same (x ∷ b) = ground (arith, bytes_eq_same b)

  client_assigned :
      (c : Client H) (k k' : Keys) (wire payload : Bytes) (seq : ℕ)
      → open_wire k wire
        ≡ some (ok (record { tag = tag; type = msg_assign; seq = seq; payload = payload }), k')
      → c.tag ≡ tag
      → wait_assign ce (received wire ∷ []) c k
        ≡ some (record c { keys = some k' }, done payload [])
  unfolding wait_assign assignment
  client_assigned c k k' wire payload seq o t = ground (arith, bytes_eq_same tag)

  -- The client's tunnel at the end of its handshake.
  abbrev pub joined : Tunnel H → Keys → ℕ × ℕ × ℕ → Tunnel H
  joined t k net = record (teardown t) {
    session = record (asked t) { keys = some k; last_rekey = ce.now };
    has_transport = true;
    ip = some net.1;
    gw = some net.2;
    prefix = net.0;
    requested_ip = some net.1;
    connected = true;
    handshakes = t.handshakes + 1;
  }

  client_settles :
      (t : Tunnel H) (k : Keys) (payload : Bytes) (net : ℕ × ℕ × ℕ)
      → parse_assign payload ≡ some (some net)
      → settle ce
          (record (teardown t) { has_transport = true })
          (record (asked t) { keys = some k })
          (done payload [])
        ≡ some (ended true (joined t k net))
  unfolding settle assigned teardown
  client_settles t k payload net p = ground arith

  client_finishes :
      (t : Tunnel H) (k : Keys) (wire payload : Bytes) (seq : ℕ) (net : ℕ × ℕ × ℕ)
      → open_wire (new_keys true cs.c2s cs.s2c) wire
        ≡ some (ok (record { tag = tag; type = msg_assign; seq = seq; payload = payload }), k)
      → parse_assign payload ≡ some (some net)
      → finish_handshake ce
          (record (teardown t) { has_transport = true })
          (record (teardown t).session { sent = (teardown t).session.sent ++ (run.m1 ∷ []) })
          run.c2
          tag
          (received wire ∷ [])
        ≡ some (ended true (joined t k net))
  unfolding finish_handshake
  client_finishes t k wire payload seq net o p =
      let c : Client H = record (teardown t).session {
        sent = (teardown t).session.sent ++ (run.m1 ∷ []);
      } in
      ground (
        arith,
        run.writes3,
        client_sends3 c,
        client_assigned (asked t) (new_keys true cs.c2s cs.s2c) k wire payload seq o refl,
        client_settles t k payload net p,
      )

  pub client_connects :
      (t : Tunnel H) (k : Keys) (wire payload : Bytes) (seq : ℕ) (net : ℕ × ℕ × ℕ)
      → open_wire (new_keys true cs.c2s cs.s2c) wire
        ≡ some (ok (record { tag = tag; type = msg_assign; seq = seq; payload = payload }), k)
      → parse_assign payload ≡ some (some net)
      → connect ce true t tag (received run.m2 ∷ received wire ∷ [])
        ≡ some (ended true (joined t k net))
  unfolding connect handshake replied
  client_connects t k wire payload seq net o p =
      let c : Client H = record (teardown t).session {
        sent = (teardown t).session.sent ++ (run.m1 ∷ []);
      } in
      ground (
        arith,
        run.starts,
        run.writes1,
        client_sends1 (teardown t).session,
        client_reads2 c wire,
        client_finishes t k wire payload seq net o p,
      )
