-- ===== src/Session/Server/Handshaken.antt =====
-- Where the first keys of a session of the server come from, and that sending keeps them.
use vibe_vpn.Base.{
  ℕ, ◌+◌, ◌≡◌, Bool, false, none, some, length, Bytes, ok, err, arith, refl, ap, Option-cases,
  Bool-cases, inl, inr, ◌⊎◌,
}
use vibe_vpn.Base.Panic.{◌>>=◌}
use vibe_vpn.Aead.{Aead}
use vibe_vpn.Wire.{msg_assign}
use vibe_vpn.Framing.{inner_header_len}
use vibe_vpn.Framing.Shaping.{padding_for}
use vibe_vpn.Session.Keys.{new_keys, seal}
use vibe_vpn.Session.Noise.{Noise, Ciphers}
use vibe_vpn.Session.Manager.{Manager}
use vibe_vpn.Session.Manager.Adopt.{adopt, set_client_key, allow_peer}
use vibe_vpn.Session.Server.{
  Env, Server, Verdict, own, assign_payload, transmit, encrypt_send, encrypt_with, send_then_go_on,
  handshake3, establish, admit,
}
use vibe_vpn.Session.Client.Trusted.{recv_of, seal-recv}

-- A cipher that the last message of a handshake gave for what the client sends.
pub record FromClient {H : Type 0} (noise : Noise H) (a : Aead) : Type 0 where
  pub before : H
  pub message : Bytes
  pub payload : Bytes
  pub after : H
  pub ciphers : Ciphers
  pub reads : noise.read before message ≡ some (payload, some ciphers, after)
  pub is_cipher : a ≡ ciphers.c2s

module _ {H : Type 0} (env : Env H) where
  abbrev pub Same : Server H → Server H → Type 0
  Same st st' =
      (recv_of st'.session.keys ≡ recv_of st.session.keys) × (st'.delivered ≡ st.delivered)

  pub encrypt_send-Same :
      (st st' : Server H) (typ : ℕ) (pt : Bytes) (b : Bool)
      → encrypt_send env st typ pt ≡ some (b, st')
      → Same st st'
  unfolding encrypt_send encrypt_with transmit
  encrypt_send-Same st st' typ pt b e = elim (Option-cases st.session.keys) [
    | inl no_keys ↦ ground arith
    | inr (k, has) ↦
        let n = (padding_for env.shaping (inner_header_len + length pt) env.rng).0 in
        elim (Option-cases (seal k env.nonce st.session.tag typ pt (env.random n))) [
          | inl bad ↦ ground arith
          | inr ((wire, seq, k1), sealed) ↦
              ground (
                arith,
                seal-recv k k1 env.nonce st.session.tag pt (env.random n) wire typ seq sealed,
              )
        ]
  ]

  pub send_then-Same :
      (st st' : Server H) (typ : ℕ) (pt : Bytes) (v : Verdict)
      → send_then_go_on env st typ pt ≡ some (v, st')
      → Same st st'
  unfolding send_then_go_on
  send_then-Same st st' typ pt v e = elim (Option-cases (encrypt_send env st typ pt)) [
    | inl bad ↦ absurd (ground arith)
    | inr ((b, st1), sent) ↦
        let same : st1 ≡ st' = ground arith in rw (← same) (encrypt_send-Same st st1 typ pt b sent)
  ]

  pub sent-Same :
      (st st' : Server H) (typ : ℕ) (pt : Bytes)
      → encrypt_send env st typ pt >>= (λ r. some r.1) ≡ some st'
      → Same st st'
  sent-Same st st' typ pt e = elim (Option-cases (encrypt_send env st typ pt)) [
    | inl bad ↦ absurd (ground arith)
    | inr ((b, st1), sent) ↦
        let same : st1 ≡ st' = ground arith in rw (← same) (encrypt_send-Same st st1 typ pt b sent)
  ]

  -- Either the cipher stays, or the message ends a handshake that gives it.
  abbrev pub Kept : Server H → Server H → Type 0
  Kept st st' =
      (recv_of st'.session.keys ≡ recv_of st.session.keys)
      ⊎ ((a : Aead) × (recv_of st'.session.keys ≡ some a) × FromClient env.noise a)

  establish-recv :
      (st st' : Server H) (mgr : Manager) (c : Ciphers) (v : Verdict)
      → establish env st mgr c ≡ some (v, st')
      → recv_of st'.session.keys ≡ some c.c2s
  unfolding establish new_keys
  establish-recv st st' mgr c v e =
      let st1 : Server H = record st {
        mgr = mgr;
        session = record (st.session) { keys = some (new_keys false c.c2s c.s2c); hs = none };
      } in
      (send_then-Same st1 st' msg_assign (assign_payload mgr.prefix (own st1).ip mgr.gw) v e).0

  admit-recv :
      (st st' : Server H) (key : ℕ) (c : Ciphers) (v : Verdict)
      → admit env st key c ≡ some (v, st')
      → (st'.session.keys ≡ st.session.keys) ⊎ (recv_of st'.session.keys ≡ some c.c2s)
  unfolding admit
  admit-recv st st' key c v e =
      let mgr : Manager = set_client_key st.mgr st.session.self key in
      elim (Bool-cases (allow_peer mgr key)) [
        | inr foreign ↦ inl (ground arith)
        | inl allowed ↦ elim (Option-cases (adopt mgr st.session.self key)) [
          | inl bad ↦ absurd (ground arith)
          | inr (err why, a) ↦ inl (ground arith)
          | inr (ok mgr1, a) ↦ inr (establish-recv st st' mgr1 c v (ground arith))
        ]
      ]

  pub handshake3-recv :
      (st st' : Server H) (h : H) (msg : Bytes) (v : Verdict)
      → handshake3 env st h msg ≡ some (v, st')
      → Kept st st'
  unfolding handshake3
  handshake3-recv st st' h msg v e = elim (Option-cases (env.noise.read h msg)) [
    | inl bad ↦ inl (ground arith)
    | inr ((pt, none, h1), r) ↦ absurd (ground arith)
    | inr ((pt, some c, h1), r) ↦ elim (Option-cases (env.noise.peer_static h1)) [
      | inl bad ↦ absurd (ground arith)
      | inr (key, named) ↦
          let st1 : Server H = record st { session = record (st.session) { hs = some h1 } } in
          elim (admit-recv st1 st' key c v (ground arith)) [
            | inl same ↦ inl (ap recv_of same)
            | inr now ↦ inr (
              c.c2s,
              now,
              record {
                before = h;
                message = msg;
                payload = pt;
                after = h1;
                ciphers = c;
                reads = r;
                is_cipher = refl;
              },
            )
          ]
    ]
  ]
