-- ===== src/Session/Join/Server.antt =====
-- The server's side of the handshake, in internal/session/server.go.
use vibe_vpn.Base.{
  ℕ, ◌+◌, ◌≡◌, true, false, Option, none, some, [], ◌∷◌, ◌++◌, length, Bytes, ok, arith,
}
use vibe_vpn.Wire.{msg_assign}
use vibe_vpn.Framing.{inner_header_len}
use vibe_vpn.Framing.Shaping.{padding_for}
use vibe_vpn.Session.Keys.{Keys, new_keys, seal}
use vibe_vpn.Session.Noise.{Ciphers}
use vibe_vpn.Session.Manager.{Manager}
use vibe_vpn.Session.Manager.Adopt.{adopt, allow_peer, set_client_key}
use vibe_vpn.Session.Server.{
  Env, Server, go_on, assign_payload, encrypt_send, encrypt_with, transmit, send_then_go_on,
  handshake1, handshake3, gate, noise1, send_raw, establish, admit,
}
use vibe_vpn.Session.Server.Handle.{handle}
use vibe_vpn.Session.Client.{ClientEnv}
use vibe_vpn.Session.Join.{Run}

module _ {H : Type 0} (ce : ClientEnv H) (se : Env H) (tag : Bytes) (key : ℕ) (cs : Ciphers)
    (run : Run ce.noise se.noise tag key cs) (tag4 : length tag ≡ 4)
    (client_sends : (b : Bytes) → ce.sends b ≡ true)
    (server_sends : (b : Bytes) → se.sends b ≡ true) where
  -- The server after message 1, when it asks for no cookie.
  abbrev pub after1 : Server H → Server H
  after1 st = record st {
    session = record (st.session) { tag = tag; hs = some run.s2 };
    sent = st.sent ++ (run.m2 ∷ []);
  }

  pub server_reads1 :
      (st : Server H)
      → st.session.keys ≡ none
      → st.session.hs ≡ none
      → se.peer_ip ≡ none
      → handle se st run.m1 ≡ some (go_on, after1 st)
  unfolding handle handshake1 gate noise1 send_raw
  server_reads1 st no_keys no_hs no_ip =
      ground (arith, run.starts, run.reads1, run.writes2, run.sizes, tag4, server_sends run.m2)

  -- The server when it has adopted the session and before it sends the assignment.
  abbrev pub established : Server H → Manager → Server H
  established st mgr = record st {
    mgr = mgr;
    session = record (st.session) { keys = some (new_keys false cs.c2s cs.s2c); hs = none };
  }

  -- The bytes of the assignment, and how many of them are padding.
  abbrev pub assign_pad : Server H → Manager → ℕ
  assign_pad st mgr =
      (padding_for se.shaping
        (inner_header_len
          + length (assign_payload mgr.prefix (mgr.entry st.session.self).ip mgr.gw))
        se.rng).0

  abbrev pub assign_frame : Server H → Manager → Option (Bytes × ℕ × Keys)
  assign_frame st mgr =
      seal (new_keys false cs.c2s cs.s2c) se.nonce st.session.tag msg_assign
        (assign_payload mgr.prefix (mgr.entry st.session.self).ip mgr.gw)
        (se.random (assign_pad st mgr))

  server_assigns :
      (st : Server H) (mgr : Manager) (wire : Bytes) (seq : ℕ) (k : Keys)
      → st.session.rekeying ≡ false
      → assign_frame st mgr ≡ some (wire, seq, k)
      → establish se st mgr cs
        ≡ some (go_on, (transmit se (established st mgr) msg_assign k wire).1)
  unfolding establish send_then_go_on encrypt_send encrypt_with
  server_assigns st mgr wire seq k calm e = ground arith

  -- The server after message 3.
  abbrev pub after3 : Server H → Manager → Keys → Bytes → Server H
  after3 st mgr k wire = (transmit se (established st mgr) msg_assign k wire).1

  pub server_reads3 :
      (st : Server H) (mgr : Manager) (wire : Bytes) (seq : ℕ) (k : Keys)
      → st.session.keys ≡ none
      → st.session.hs ≡ some run.s2
      → st.session.rekeying ≡ false
      → allow_peer (set_client_key st.mgr st.session.self key) key ≡ true
      → adopt (set_client_key st.mgr st.session.self key) st.session.self key ≡ some (ok mgr)
      → assign_frame st mgr ≡ some (wire, seq, k)
      → handle se st run.m3 ≡ some (go_on, after3 st mgr k wire)
  unfolding handle handshake3 admit
  server_reads3 st mgr wire seq k no_keys has calm allowed adopted e =
      let st1 : Server H = record st { session = record (st.session) { hs = some run.s3 } } in
      ground (arith, run.reads3, run.who, server_assigns st1 mgr wire seq k)
