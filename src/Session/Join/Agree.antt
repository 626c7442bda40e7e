-- ===== src/Session/Join/Agree.antt =====
-- Both sides of the handshake together.
use vibe_vpn.Base.{
  ℕ, ◌^◌, ◌≡◌, ◌≤◌, ◌<◌, true, false, none, some, [], ◌∷◌, ◌++◌, length, Bytes, AreBytes, ok, arith,
  refl,
}
use vibe_vpn.Aead.{IsAead}
use vibe_vpn.Wire.{msg_assign}
use vibe_vpn.Replay.{check, add, new_replay_window}
use vibe_vpn.Session.Keys.{Keys, new_keys, open_wire, seal}
use vibe_vpn.Session.Keys.Open.{open_wire-seal}
use vibe_vpn.Session.Noise.{Ciphers}
use vibe_vpn.Session.Manager.{Manager}
use vibe_vpn.Session.Manager.Adopt.{adopt, allow_peer, set_client_key}
use vibe_vpn.Session.Server.{Env, Server, go_on, assign_payload}
use vibe_vpn.Session.Server.Handle.{handle}
use vibe_vpn.Session.Client.{ClientEnv}
use vibe_vpn.Session.Client.Safety.{parse_assign-assign_payload}
use vibe_vpn.Session.Client.Connect.{received, Tunnel, ended, connect}
use vibe_vpn.Session.Join.{Run}
use vibe_vpn.Session.Join.Server.{
  after1, after3, assign_frame, assign_pad, server_reads1, server_reads3,
}
use vibe_vpn.Session.Join.Client.{joined, client_connects}

module _ {H : Type 0} (ce : ClientEnv H) (se : Env H) (tag : Bytes) (key : ℕ) (cs : Ciphers)
    (run : Run ce.noise se.noise tag key cs) (tag4 : length tag ≡ 4)
    (client_sends : (b : Bytes) → ce.sends b ≡ true)
    (server_sends : (b : Bytes) → se.sends b ≡ true) where
  -- The client's keys, which have opened the assignment.
  abbrev pub client_keys : ℕ → Keys
  client_keys seq = record (new_keys true cs.c2s cs.s2c) {
    replay = add (new_keys true cs.c2s cs.s2c).replay seq;
  }

  keys_match :
      (wire : Bytes) (seq : ℕ) (k : Keys) (st : Server H) (mgr : Manager)
      → assign_frame ce se tag key cs run tag4 client_sends server_sends st mgr
        ≡ some (wire, seq, k)
      → ((client_keys seq).send_aead ≡ k.recv_aead) × ((client_keys seq).recv_aead ≡ k.send_aead)
  unfolding seal new_keys
  keys_match wire seq k st mgr e = ground arith

  new_window_open : (seq : ℕ) → check (new_keys true cs.c2s cs.s2c).replay seq ≡ true
  unfolding new_keys new_replay_window check
  new_window_open seq = refl

  crossed :
      ((new_keys true cs.c2s cs.s2c).recv_aead ≡ (new_keys false cs.c2s cs.s2c).send_aead)
      × ((new_keys false cs.c2s cs.s2c).send_aead ≡ cs.s2c)
  unfolding new_keys
  crossed = (refl, refl)

  -- Under the documented behaviour of the handshake and of the ciphers, over transports that lose
  -- nothing: a server session that has just begun, asks for no cookie, allows the client's key and
  -- has an address to give, answers message 1 with message 2 and message 3 with the assignment;
  -- the client that gets those two datagrams is connected, with the address, the gateway and the
  -- prefix of the server's manager, and each side decrypts with the cipher of the other.
  pub connect-handle :
      (st : Server H) (t : Tunnel H) (mgr : Manager) (ip : ℕ) (wire : Bytes) (seq : ℕ) (k : Keys)
      → st.session.keys ≡ none
      → st.session.hs ≡ none
      → st.session.rekeying ≡ false
      → se.peer_ip ≡ none
      → allow_peer (set_client_key st.mgr st.session.self key) key ≡ true
      → adopt (set_client_key st.mgr st.session.self key) st.session.self key ≡ some (ok mgr)
      → (mgr.entry st.session.self).ip ≡ some ip
      → (mgr.prefix ≤ 32) × (ip < 2 ^ 32) × (mgr.gw < 2 ^ 32)
      → IsAead cs.s2c
      → length se.nonce ≡ 12
      → AreBytes (
          tag
          ++ (msg_assign
              ∷ (assign_payload mgr.prefix (some ip) mgr.gw
                  ++ se.random (
                      assign_pad ce se tag key cs run tag4 client_sends server_sends
                        (after1 ce se tag key cs run tag4 client_sends server_sends st)
                        mgr))))
      → assign_frame ce se tag key cs run tag4 client_sends server_sends
          (after1 ce se tag key cs run tag4 client_sends server_sends st)
          mgr
        ≡ some (wire, seq, k)
      → (handle se st run.m1
          ≡ some (go_on, after1 ce se tag key cs run tag4 client_sends server_sends st))
        × (handle se (after1 ce se tag key cs run tag4 client_sends server_sends st) run.m3
            ≡ some (
              go_on,
              after3 ce se tag key cs run tag4 client_sends server_sends
                  (after1 ce se tag key cs run tag4 client_sends server_sends st)
                  mgr
                  k
                  wire,
            ))
        × (connect ce true t tag (received run.m2 ∷ received wire ∷ [])
            ≡ some (
                ended true (
                  joined ce se tag key cs run tag4 client_sends server_sends t
                    (client_keys seq)
                    (mgr.prefix, ip, mgr.gw))))
        × ((client_keys seq).send_aead ≡ k.recv_aead)
        × ((client_keys seq).recv_aead ≡ k.send_aead)
  connect-handle st t mgr ip wire seq k no_keys no_hs calm no_ip allowed adopted has bounds v
        nonce12 bytes e =
      let (send, recv) =
        keys_match wire seq k (after1 ce se tag key cs run tag4 client_sends server_sends st) mgr
          e in
      let (cross, same) = crossed in
      let payload : Bytes = assign_payload mgr.prefix (some ip) mgr.gw in
      let opened : open_wire (new_keys true cs.c2s cs.s2c) wire
          ≡ some (
            ok (record { tag = tag; type = msg_assign; seq = seq; payload = payload }),
            client_keys seq,
          ) =
        open_wire-seal (new_keys false cs.c2s cs.s2c) k (new_keys true cs.c2s cs.s2c) se.nonce tag
          msg_assign payload
          (se.random (
            assign_pad ce se tag key cs run tag4 client_sends server_sends
              (after1 ce se tag key cs run tag4 client_sends server_sends st) mgr))
          wire seq (rw same v) cross nonce12 tag4 (nine mgr.prefix ip mgr.gw) bytes (rw has at e)
          (new_window_open seq) in
      (
        server_reads1 ce se tag key cs run tag4 client_sends server_sends st no_keys no_hs no_ip,
        server_reads3 ce se tag key cs run tag4 client_sends server_sends
            (after1 ce se tag key cs run tag4 client_sends server_sends st) mgr wire seq k no_keys
            refl calm allowed adopted e,
        client_connects ce se tag key cs run tag4 client_sends server_sends t (client_keys seq) wire
            payload seq (mgr.prefix, ip, mgr.gw) opened
            (parse_assign-assign_payload mgr.prefix ip mgr.gw bounds.0 bounds.1 bounds.2),
        send,
        recv,
      )
    where
      nine : (prefix ip gw : ℕ) → length (assign_payload prefix (some ip) gw) < 2 ^ 16
      nine prefix ip gw = unfold assign_payload in omega arith
