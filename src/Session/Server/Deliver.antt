-- ===== src/Session/Server/Deliver.antt =====
-- What a datagram from the network can put on the server's TUN device.
use vibe_vpn.Base.{
  ℕ, ◌-◌, ◌≡◌, ◌≤◌, Bool, ◌&&◌, Option, none, some, ◌==◌, leb, [], ◌∷◌, ◌++◌, length, Bytes, get_be,
  ok, err, arith, ◌⊎◌, inl, inr, Option-cases, Bool-cases, take, drop,
}
use vibe_vpn.Base.Panic.{◌>>=◌}
use vibe_vpn.Wire.{msg_data, msg_keepalive}
use vibe_vpn.Framing.{Frame}
use vibe_vpn.Ippkt
use vibe_vpn.Ippkt.{Header, never_panics}
use vibe_vpn.Session.Keys.{Keys, Error, open_wire}
use vibe_vpn.Session.Keys.Open.{open_wire_total}
use vibe_vpn.Session.Noise.{Ciphers}
use vibe_vpn.Session.Cookie.{bytes_eq, bytes_eq_sound, require_cookie, cookie_for}
use vibe_vpn.Session.Manager.{Manager}
use vibe_vpn.Session.Manager.Adopt.{adopt, set_client_key}
use vibe_vpn.Session.Server.{
  Env, Server, Verdict, own, encrypt_send, encrypt_with, transmit, send_then_go_on, handshake1,
  handshake3, establish, admit, noise1, cookie_gate, gate, send_raw,
}
use vibe_vpn.Session.Server.Handle.{
  handle, opened, dispatch, handle_data, from_source, deliver, rekey1, rekey3, finish_rekey,
  begin_rekey, switch_keys, is_source,
}

-- Nothing goes to the TUN device, and the keys stay.
abbrev pub Keeps : {H : Type 0} → Server H → Server H → Type 0
Keeps st st' = (st'.delivered ≡ st.delivered) × (st'.session.keys ≡ st.session.keys)

module _ {H : Type 0} (env : Env H) where
  transmit-delivered :
      (st : Server H) (typ : ℕ) (k : Keys) (wire : Bytes)
      → (transmit env st typ k wire).1.delivered ≡ st.delivered
  unfolding transmit
  transmit-delivered st typ k wire = ground arith

  encrypt_send-delivered :
      (st st' : Server H) (typ : ℕ) (pt : Bytes) (b : Bool)
      → encrypt_send env st typ pt ≡ some (b, st')
      → st'.delivered ≡ st.delivered
  unfolding encrypt_send encrypt_with
  encrypt_send-delivered st st' typ pt b e = ground (arith, transmit-delivered st typ)

  send_then_go_on-delivered :
      (st st' : Server H) (typ : ℕ) (pt : Bytes) (v : Verdict)
      → send_then_go_on env st typ pt ≡ some (v, st')
      → st'.delivered ≡ st.delivered
  unfolding send_then_go_on
  send_then_go_on-delivered st st' typ pt v e = elim (Option-cases (encrypt_send env st typ pt)) [
    | inl bad ↦ absurd (ground arith)
    | inr ((b, st1), sent) ↦ ground (arith, encrypt_send-delivered st st1 typ pt b sent)
  ]

  send_raw-Keeps : (st : Server H) (b : Bytes) → Keeps st (send_raw env st b)
  unfolding send_raw
  send_raw-Keeps st b = ground arith

  noise1-Keeps : (st : Server H) (msg : Bytes) → Keeps st (noise1 env st msg).1
  unfolding noise1
  noise1-Keeps st msg = ground arith

  cookie_gate-Keeps :
      (st : Server H) (msg : Bytes) (cookie : Option Bytes) (peer : ℕ × Bytes)
      → Keeps st (cookie_gate env st msg cookie peer).1
  unfolding cookie_gate
  cookie_gate-Keeps st msg none (key, ip) =
      let st1 : Server H = record st { rate = (require_cookie st.rate key env.now).1 } in
      ground
        (arith, noise1-Keeps st1 msg, send_raw-Keeps st1 (cookie_for env.mac env.secret ip env.now))
  cookie_gate-Keeps st msg (some cookie) (key, ip) =
      ground
        (arith, noise1-Keeps st msg, send_raw-Keeps st (cookie_for env.mac env.secret ip env.now))

  gate-Keeps :
      (st : Server H) (msg : Bytes) (cookie : Option Bytes) → Keeps st (gate env st msg cookie).1
  unfolding gate
  gate-Keeps st msg cookie = elim (Option-cases env.peer_ip) [
    | inl unknown ↦ ground (arith, noise1-Keeps st msg)
    | inr (peer, known) ↦ ground (arith, cookie_gate-Keeps st msg cookie peer)
  ]

  pub handshake1-Keeps : (st : Server H) (msg : Bytes) → Keeps st (handshake1 env st msg).1
  unfolding handshake1
  handshake1-Keeps st msg = ground (
    arith,
    gate-Keeps st msg none,
    gate-Keeps st (take (length msg - 32) msg) (some (drop (length msg - 32) msg)),
  )

  establish-delivered :
      (st st' : Server H) (m : Manager) (c : Ciphers) (v : Verdict)
      → establish env st m c ≡ some (v, st')
      → st'.delivered ≡ st.delivered
  unfolding establish
  establish-delivered st st' m c v e = send_then_go_on-delivered _ st' _ _ v e

  admit-delivered :
      (st st' : Server H) (key : ℕ) (c : Ciphers) (v : Verdict)
      → admit env st key c ≡ some (v, st')
      → st'.delivered ≡ st.delivered
  unfolding admit
  admit-delivered st st' key c v e =
      let m = set_client_key st.mgr st.session.self key in
      elim (Option-cases (adopt m st.session.self key)) [
        | inl bad ↦ ground arith
        | inr (err _, r) ↦ ground arith
        | inr (ok m1, r) ↦ ground (arith, establish-delivered st st' m1 c v)
      ]

  handshake3-delivered :
      (st st' : Server H) (h : H) (msg : Bytes) (v : Verdict)
      → handshake3 env st h msg ≡ some (v, st')
      → st'.delivered ≡ st.delivered
  unfolding handshake3
  handshake3-delivered st st' h msg v e = elim (Option-cases (env.noise.read h msg)) [
    | inl closed ↦ ground arith
    | inr ((pt, none, h1), r) ↦ absurd (ground arith)
    | inr ((pt, some c, h1), r) ↦ elim (Option-cases (env.noise.peer_static h1)) [
      | inl bad ↦ absurd (ground arith)
      | inr (key, named) ↦
          let st1 : Server H = record st { session = record (st.session) { hs = some h1 } } in
          ground (arith, admit-delivered st1 st' key c v)
    ]
  ]

  begin_rekey-delivered :
      (st st' : Server H) (h : H) (m2 : Bytes) (v : Verdict)
      → begin_rekey env st h m2 ≡ some (v, st')
      → st'.delivered ≡ st.delivered
  unfolding begin_rekey
  begin_rekey-delivered st st' h m2 v e = send_then_go_on-delivered _ st' _ _ v e

  rekey1-delivered :
      (st st' : Server H) (msg : Bytes) (v : Verdict)
      → rekey1 env st msg ≡ some (v, st')
      → st'.delivered ≡ st.delivered
  unfolding rekey1
  rekey1-delivered st st' msg v e = elim (Bool-cases st.session.rekeying) [
    | inl busy ↦ ground arith
    | inr idle ↦
        elim (Option-cases
          (env.noise.new_server >>= λ h. env.noise.read h msg >>= λ r. env.noise.write r.2 [])) [
            | inl bad ↦ ground arith
            | inr ((m2, c, h), r) ↦ begin_rekey-delivered st st' h m2 v (rw (idle, r) at e)
          ]
  ]

  rekey3-delivered :
      (st st' : Server H) (msg : Bytes)
      → rekey3 env st msg ≡ some st'
      → st'.delivered ≡ st.delivered
  unfolding rekey3 finish_rekey switch_keys
  rekey3-delivered st st' msg e = ground arith

  -- A packet that the session may put on the TUN device.
  pub record Admissible (st : Server H) (pt : Bytes) : Type 0 where
    pub fits : length pt ≤ env.mtu
    pub header : Header
    pub parses : Ippkt.parse pt ≡ some (some header)
    pub from_own : (own st).ip ≡ some (get_be header.src)

  handle_data-delivered :
      (st st' : Server H) (pt : Bytes)
      → handle_data env st pt ≡ some st'
      → (st'.delivered ≡ st.delivered)
        ⊎ (Admissible st pt × (st'.delivered ≡ st.delivered ++ (pt ∷ [])))
  unfolding handle_data from_source deliver
  handle_data-delivered st st' pt e = elim (Option-cases (Ippkt.parse pt)) [
    | inl bad ↦ absurd (never_panics pt bad)
    | inr (none, p) ↦ inl (ground arith)
    | inr (some h, p) ↦
        elim (Bool-cases (leb (length pt) env.mtu && is_source (own st).ip (get_be h.src))) [
          | inr refused ↦ inl (ground arith)
          | inl good ↦ elim (Bool-cases (env.writes pt)) [
            | inr failed ↦ inl (ground arith)
            | inl written ↦ inr (
              record { fits = ground arith; header = h; parses = p; from_own = ground arith },
              ground arith,
            )
          ]
        ]
  ]

  dispatch-delivered :
      (st st' : Server H) (f : Frame) (v : Verdict)
      → dispatch env st f ≡ some (v, st')
      → (st'.delivered ≡ st.delivered)
        ⊎ (Admissible st f.payload
            × (f.type ≡ msg_data)
            × (st'.delivered ≡ st.delivered ++ (f.payload ∷ [])))
  unfolding dispatch
  dispatch-delivered st st' f v e = elim (Bool-cases (f.type == msg_data)) [
    | inl is_data ↦ elim (Option-cases (handle_data env st f.payload)) [
      | inl bad ↦ absurd (ground arith)
      | inr (st1, done) ↦
          let same : st1 ≡ st' = ground arith in
          let typ : f.type ≡ msg_data = ground arith in
          elim (handle_data-delivered st st1 f.payload done) [
            | inl none_out ↦ inl (rw (← same) none_out)
            | inr (good, out) ↦ inr (good, typ, rw (← same) out)
          ]
    ]
    | inr other ↦ inl (elim (Option-cases (rekey3 env st f.payload)) [
      | inl bad ↦ ground (
        arith,
        send_then_go_on-delivered st st' msg_keepalive f.payload v,
        rekey1-delivered st st' f.payload v,
      )
      | inr (st2, done) ↦ ground (
        arith,
        send_then_go_on-delivered st st' msg_keepalive f.payload v,
        rekey1-delivered st st' f.payload v,
        rekey3-delivered st st2 f.payload done,
      )
    ])
  ]

  -- The frame behind a packet that went to the TUN device: it opened under the session's keys,
  -- bears the session's tag and carries data, and the packet may be put there.
  pub record Delivered (st st' : Server H) (msg : Bytes) : Type 0 where
    pub keys : Keys
    pub next : Keys
    pub frame : Frame
    pub keyed : st.session.keys ≡ some keys
    pub opens : open_wire keys msg ≡ some (ok frame, next)
    pub tagged : frame.tag ≡ st.session.tag
    pub is_data : frame.type ≡ msg_data
    pub admissible : Admissible st frame.payload
    pub out : st'.delivered ≡ st.delivered ++ (frame.payload ∷ [])

  opened-delivered :
      (st st' : Server H) (msg : Bytes) (v : Verdict) (k k1 : Keys) (f : Frame)
      → st.session.keys ≡ some k
      → open_wire k msg ≡ some (ok f, k1)
      → opened env st (ok f, k1) ≡ some (v, st')
      → (st'.delivered ≡ st.delivered) ⊎ Delivered st st' msg
  unfolding opened
  opened-delivered st st' msg v k k1 f has o e = elim (Bool-cases (bytes_eq f.tag st.session.tag)) [
    | inr wrong ↦ inl (ground arith)
    | inl right ↦
        let st1 : Server H = record st { session = record (st.session) { keys = some k1 } } in
        elim (dispatch-delivered st1 st' f v (ground arith)) [
          | inl none_out ↦ inl none_out
          | inr (good, typ, out) ↦ inr (record {
            keys = k;
            next = k1;
            frame = f;
            keyed = has;
            opens = o;
            tagged = bytes_eq_sound f.tag st.session.tag right;
            is_data = typ;
            admissible = record {
              fits = good.fits;
              header = good.header;
              parses = good.parses;
              from_own = good.from_own;
            };
            out = out;
          })
        ]
  ]

  opened_err-delivered :
      (st st' : Server H) (v : Verdict) (k1 : Keys) (why : Error)
      → opened env st (err why, k1) ≡ some (v, st')
      → st'.delivered ≡ st.delivered
  unfolding opened
  opened_err-delivered st st' v k1 why e = ground arith

  -- Whatever datagram arrives in whatever state of a session: nothing goes to the TUN device, or
  -- the datagram is a data frame that opens under the session's keys and bears its tag, and its
  -- payload, which is not longer than the MTU and is an IPv4 packet whose source is the session's
  -- own address, is the one packet that goes there.
  pub handle-delivered :
      (st st' : Server H) (msg : Bytes) (v : Verdict)
      → handle env st msg ≡ some (v, st')
      → (st'.delivered ≡ st.delivered) ⊎ Delivered st st' msg
  unfolding handle
  handle-delivered st st' msg v e = elim (Option-cases st.session.keys) [
    | inl no_keys ↦ elim (Option-cases st.session.hs) [
      | inl new ↦ inl (ground (arith, handshake1-Keeps st msg))
      | inr (h, has) ↦ inl (ground (arith, handshake3-delivered st st' h msg v))
    ]
    | inr (k, has) ↦ elim (Option-cases (open_wire k msg)) [
      | inl bad ↦ absurd (open_wire_total k msg bad)
      | inr ((ok f, k1), o) ↦ opened-delivered st st' msg v k k1 f has o (ground arith)
      | inr ((err why, k1), o) ↦ inl (ground (arith, opened_err-delivered st st' v k1 why))
    ]
  ]
