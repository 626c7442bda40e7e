-- ===== src/Session/Server/Trusted.antt =====
-- Where the keys of a session of the server come from, whatever datagram arrives.
use vibe_vpn.Base.{
  ◌≡◌, true, Option, none, some, [], Bytes, Result, ok, err, arith, refl, sym, ap, ◌∙◌,
  Option-cases, Bool-cases, inl, inr, ◌⊎◌,
}
use vibe_vpn.Base.Panic.{◌>>=◌}
use vibe_vpn.Wire.{msg_keepalive, msg_rekey2}
use vibe_vpn.Framing.{Frame}
use vibe_vpn.Ippkt
use vibe_vpn.Ippkt.{Header}
use vibe_vpn.Session.Keys.{Keys, Error, new_keys, open_wire}
use vibe_vpn.Session.Keys.Open.{open_wire_total, open_wire_err, open_wire_ok}
use vibe_vpn.Session.Cookie.{bytes_eq}
use vibe_vpn.Session.Server.{Env, Server, Verdict, own, send_then_go_on}
use vibe_vpn.Session.Server.Handle.{
  handle, opened, dispatch, handle_data, from_source, deliver, rekey1, rekey3, finish_rekey,
  begin_rekey, switch_keys, is_key,
}
use vibe_vpn.Session.Server.Deliver.{handshake1-Keeps}
use vibe_vpn.Session.Client.Trusted.{recv_of}
use vibe_vpn.Session.Server.Handshaken.{Kept, send_then-Same, handshake3-recv}

module _ {H : Type 0} (env : Env H) where
  finish_rekey-recv :
      (st st' : Server H) (msg : Bytes) (h : H)
      → finish_rekey env st msg h ≡ some st'
      → Kept env st st'
  unfolding finish_rekey switch_keys new_keys
  finish_rekey-recv st st' msg h e = elim (Option-cases (env.noise.read h msg)) [
    | inl bad ↦ inl (ground arith)
    | inr ((pt, c, h1), r) ↦
        elim (Bool-cases (is_key (env.noise.peer_static h1) (own st).client_key)) [
          | inr other ↦ inl (ground arith)
          | inl same ↦ elim (Option-cases c) [
            | inl bad ↦ absurd (ground arith)
            | inr (cs, is) ↦ inr (
              cs.c2s,
              ground arith,
              record {
                before = h;
                message = msg;
                payload = pt;
                after = h1;
                ciphers = cs;
                reads = rw is at r;
                is_cipher = refl;
              },
            )
          ]
        ]
  ]

  rekey3-recv : (st st' : Server H) (msg : Bytes) → rekey3 env st msg ≡ some st' → Kept env st st'
  unfolding rekey3
  rekey3-recv st st' msg e = elim (Option-cases st.session.rekey_hs) [
    | inl no_hs ↦ inl (ground arith)
    | inr (h, has) ↦ elim (Bool-cases st.session.rekeying) [
      | inr calm ↦ inl (ground arith)
      | inl going ↦ finish_rekey-recv st st' msg h (ground arith)
    ]
  ]

  begin_rekey-recv :
      (st st' : Server H) (h : H) (m2 : Bytes) (v : Verdict)
      → begin_rekey env st h m2 ≡ some (v, st')
      → recv_of st'.session.keys ≡ recv_of st.session.keys
  unfolding begin_rekey
  begin_rekey-recv st st' h m2 v e =
      let st1 : Server H = record st {
        session = record (st.session) { rekey_hs = some h; rekeying = true; rekey_start = env.now };
      } in
      (send_then-Same env st1 st' msg_rekey2 m2 v e).0

  rekey1-recv :
      (st st' : Server H) (msg : Bytes) (v : Verdict)
      → rekey1 env st msg ≡ some (v, st')
      → recv_of st'.session.keys ≡ recv_of st.session.keys
  unfolding rekey1
  rekey1-recv st st' msg v e =
      elim (Option-cases
        (env.noise.new_server >>= λ h. env.noise.read h msg >>= λ r. env.noise.write r.2 [])) [
          | inl bad ↦ ground arith
          | inr ((m2, c, h), answer) ↦ elim (Bool-cases st.session.rekeying) [
            | inl going ↦ ground arith
            | inr calm ↦ begin_rekey-recv st st' h m2 v (ground arith)
          ]
        ]

  from_source-keys :
      (st : Server H) (pt : Bytes) (header : Option Header)
      → (from_source env st pt header).session.keys ≡ st.session.keys
  unfolding from_source deliver
  from_source-keys st pt none = refl
  from_source-keys st pt (some h) = ground arith

  handle_data-keys :
      (st st' : Server H) (pt : Bytes)
      → handle_data env st pt ≡ some st'
      → st'.session.keys ≡ st.session.keys
  unfolding handle_data
  handle_data-keys st st' pt e = elim (Option-cases (Ippkt.parse pt)) [
    | inl bad ↦ ground arith
    | inr (header, p) ↦ ground (arith, from_source-keys st pt header)
  ]

  dispatch-cases :
      (st st' : Server H) (f : Frame) (v : Verdict)
      → dispatch env st f ≡ some (v, st')
      → (handle_data env st f.payload ≡ some st')
        ⊎ (send_then_go_on env st msg_keepalive f.payload ≡ some (v, st'))
        ⊎ (st ≡ st')
        ⊎ (rekey1 env st f.payload ≡ some (v, st'))
        ⊎ (rekey3 env st f.payload ≡ some st')
  unfolding dispatch
  dispatch-cases st st' f v e =
      ground
        (arith, Option-cases (handle_data env st f.payload), Option-cases (rekey3 env st f.payload))

  dispatch-recv :
      (st st' : Server H) (f : Frame) (v : Verdict)
      → dispatch env st f ≡ some (v, st')
      → Kept env st st'
  dispatch-recv st st' f v e = elim (dispatch-cases st st' f v e) [
    | inl packet ↦ inl (ap recv_of (handle_data-keys st st' f.payload packet))
    | inr (inl echo) ↦ inl (send_then-Same env st st' msg_keepalive f.payload v echo).0
    | inr (inr (inl same)) ↦ inl (ap (λ (x : Server H). recv_of x.session.keys) (sym same))
    | inr (inr (inr (inl first))) ↦ inl (rekey1-recv st st' f.payload v first)
    | inr (inr (inr (inr third))) ↦ rekey3-recv st st' f.payload third
  ]

  opened-recv :
      (st st' : Server H) (k k1 : Keys) (msg : Bytes) (result : Result Error Frame) (v : Verdict)
      → st.session.keys ≡ some k
      → open_wire k msg ≡ some (result, k1)
      → opened env st (result, k1) ≡ some (v, st')
      → Kept env st st'
  unfolding opened
  opened-recv st st' k k1 msg (err why) v has o e =
      inl (ground (arith, open_wire_err k k1 msg why o))
  opened-recv st st' k k1 msg (ok f) v has o e =
      let (_, _, after) = open_wire_ok k k1 msg f o in
      let same : recv_of (some k1) ≡ recv_of st.session.keys = ground arith in
      let st1 : Server H = record st { session = record (st.session) { keys = some k1 } } in
      elim (Bool-cases (bytes_eq f.tag st.session.tag)) [
        | inr wrong ↦ inl (ground arith)
        | inl right ↦ elim (dispatch-recv st1 st' f v (ground arith)) [
          | inl kept ↦ inl (kept ∙ same)
          | inr fresh ↦ inr fresh
        ]
      ]

  pub handle-recv :
      (st st' : Server H) (msg : Bytes) (v : Verdict)
      → handle env st msg ≡ some (v, st')
      → Kept env st st'
  unfolding handle
  handle-recv st st' msg v e = elim (Option-cases st.session.keys) [
    | inl no_keys ↦ elim (Option-cases st.session.hs) [
      | inl new ↦ inl (ground (arith, handshake1-Keeps env st msg))
      | inr (h, has) ↦ handshake3-recv env st st' h msg v (ground arith)
    ]
    | inr (k, has) ↦ elim (Option-cases (open_wire k msg)) [
      | inl bad ↦ absurd (open_wire_total k msg bad)
      | inr ((result, k1), o) ↦ opened-recv st st' k k1 msg result v has o (ground arith)
    ]
  ]
