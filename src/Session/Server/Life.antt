-- ===== src/Session/Server/Life.antt =====
-- What a session of the server puts on the TUN device over the whole of its `run`.
use vibe_vpn.Base.{
  ℕ, ◌≡◌, ◌≤◌, Bool, true, false, none, some, List, [], ◌∷◌, length, Bytes, All, All-append, ok,
  arith, refl, sym, ap, subst, ◌∙◌, Option-cases, inl, inr,
}
use vibe_vpn.Aead.{Aead}
use vibe_vpn.Wire.{msg_data, msg_close, msg_decoy}
use vibe_vpn.Framing.{Frame}
use vibe_vpn.Ippkt
use vibe_vpn.Ippkt.{Header}
use vibe_vpn.Session.Keys.{Keys, open_wire}
use vibe_vpn.Session.Noise.{Noise}
use vibe_vpn.Session.Manager.Adopt.{remove}
use vibe_vpn.Session.Server.{Env, Server, Verdict, go_on, fatal, own, encrypt_send}
use vibe_vpn.Session.Server.Handle.{handle, drain_recv, send_queued, tick, finish}
use vibe_vpn.Session.Server.Deliver.{handle-delivered}
use vibe_vpn.Session.Server.Handshaken.{FromClient, Same, encrypt_send-Same, sent-Same}
use vibe_vpn.Session.Server.Trusted.{handle-recv}
use vibe_vpn.Session.Client.Trusted.{recv_of}
use vibe_vpn.Session.Server.Run.{
  ServerInput, datagrams, replies, ticked, decoy_due, cancelled, drain_datagrams, drain_replies,
  server_decoy, server_turn, ServerRound, server_env_at, run_session,
}

-- A packet that a data frame of the client carried. The frame opened under a cipher that a handshake
-- gave for what the client sends.
pub record FromTunnel {H : Type 0} (noise : Noise H) (mtu : ℕ) (pkt : Bytes) : Type 0 where
  pub keys : Keys
  pub after : Keys
  pub datagram : Bytes
  pub frame : Frame
  pub from_client : FromClient noise keys.recv_aead
  pub opens : open_wire keys datagram ≡ some (ok frame, after)
  pub is_data : frame.type ≡ msg_data
  pub carries : frame.payload ≡ pkt
  pub fits : length pkt ≤ mtu
  pub header : Header
  pub parses : Ippkt.parse pkt ≡ some (some header)

module _ {H : Type 0} (env : Env H) where
  -- What holds before each round of the loop.
  abbrev pub Good : Server H → Type 0
  Good st =
      ((a : Aead) → recv_of st.session.keys ≡ some a → FromClient env.noise a)
      × All (FromTunnel env.noise env.mtu) st.delivered

  Same-Good : (st st' : Server H) → Same env st st' → Good st → Good st'
  Same-Good st st' (keys, out) (keyed, sound) = (λ a has. keyed a (sym keys ∙ has), rw out sound)

  handle-Good :
      (st st' : Server H) (msg : Bytes) (v : Verdict)
      → handle env st msg ≡ some (v, st')
      → Good st
      → Good st'
  handle-Good st st' msg v e (keyed, sound) = (
    λ a has. elim (handle-recv env st st' msg v e) [
      | inl same ↦ keyed a (sym same ∙ has)
      | inr (b, now, fresh) ↦
          let same : b ≡ a = ground arith in subst (FromClient env.noise) same fresh
    ],
    elim (handle-delivered env st st' msg v e) [
      | inl same ↦ rw same sound
      | inr d ↦
          let carried : FromTunnel env.noise env.mtu d.frame.payload = record {
            keys = d.keys;
            after = d.next;
            datagram = msg;
            frame = d.frame;
            from_client = keyed d.keys.recv_aead (ap recv_of d.keyed);
            opens = d.opens;
            is_data = d.is_data;
            carries = refl;
            fits = d.admissible.fits;
            header = d.admissible.header;
            parses = d.admissible.parses;
          } in
          rw d.out (
            All-append (FromTunnel env.noise env.mtu) st.delivered (d.frame.payload ∷ []) sound
              (carried, tt))
    ],
  )

  drain_recv-Good :
      (st st' : Server H) (msg : Bytes) (b : Bool)
      → drain_recv env st msg ≡ some (b, st')
      → Good st
      → Good st'
  unfolding drain_recv
  drain_recv-Good st st' msg b e good =
      let st1 : Server H = record st { session = record (st.session) { last_recv = env.now } } in
      elim (Option-cases (handle env st1 msg)) [
        | inl bad ↦ absurd (ground arith)
        | inr ((go_on, st2), h) ↦
            let same : st2 ≡ st' = ground arith in
            rw (← same) (handle-Good st1 st2 msg go_on h good)
        | inr ((fatal, st2), h) ↦
            let same : st2 ≡ st' = ground arith in
            rw (← same) (handle-Good st1 st2 msg fatal h good)
      ]

  drain_datagrams-Good :
      (bs : List Bytes) (st st' : Server H) (b : Bool)
      → drain_datagrams env st bs ≡ some (b, st')
      → Good st
      → Good st'
  unfolding drain_datagrams
  drain_datagrams-Good [] st st' b e good = let same : st ≡ st' = ground arith in rw (← same) good
  drain_datagrams-Good (m ∷ bs) st st' b e good = elim (Option-cases (drain_recv env st m)) [
    | inl bad ↦ absurd (ground arith)
    | inr ((false, st1), d) ↦
        let same : st1 ≡ st' = ground arith in rw (← same) (drain_recv-Good st st1 m false d good)
    | inr ((true, st1), d) ↦
        drain_datagrams-Good bs st1 st' b (ground arith) (drain_recv-Good st st1 m true d good)
  ]

  send_queued-Same :
      (st st' : Server H) (pkt : Bytes) → send_queued env st pkt ≡ some st' → Same env st st'
  unfolding send_queued
  send_queued-Same st st' pkt e = elim (Option-cases (own st).ip) [
    | inl no_ip ↦ let same : st ≡ st' = ground arith in rw (← same) (refl, refl)
    | inr (ip, has) ↦ sent-Same env st st' msg_data pkt (ground arith)
  ]

  drain_replies-Good :
      (ps : List Bytes) (st st' : Server H)
      → drain_replies env st ps ≡ some st'
      → Good st
      → Good st'
  unfolding drain_replies
  drain_replies-Good [] st st' e good = let same : st ≡ st' = ground arith in rw (← same) good
  drain_replies-Good (p ∷ ps) st st' e good = elim (Option-cases (send_queued env st p)) [
    | inl bad ↦ absurd (ground arith)
    | inr (st1, s) ↦
        drain_replies-Good ps st1 st' (ground arith)
          (Same-Good st st1 (send_queued-Same st st1 p s) good)
  ]

  tick-Same : (st st' : Server H) (b : Bool) → tick env st ≡ some (b, st') → Same env st st'
  unfolding tick
  tick-Same st st' b e = elim (Option-cases (encrypt_send env st msg_close [])) [
    | inl bad ↦ ground arith
    | inr ((sent, st1), s) ↦ ground (arith, encrypt_send-Same env st st1 msg_close [] sent s)
  ]

  server_decoy-Same :
      (st st' : Server H) (payload : Bytes)
      → server_decoy env payload st ≡ some st'
      → Same env st st'
  unfolding server_decoy
  server_decoy-Same st st' payload e = elim (Option-cases (encrypt_send env st msg_decoy payload)) [
    | inl bad ↦ ground arith
    | inr ((sent, st1), s) ↦ ground (arith, encrypt_send-Same env st st1 msg_decoy payload sent s)
  ]

  finish-Same : (st st' : Server H) → finish env st ≡ some st' → Same env st st'
  unfolding finish
  finish-Same st st' e =
      let st1 : Server H = record st { mgr = remove st.mgr st.session.self } in
      elim (Option-cases (encrypt_send env st1 msg_close [])) [
        | inl bad ↦ ground arith
        | inr ((sent, st2), s) ↦ ground (arith, encrypt_send-Same env st1 st2 msg_close [] sent s)
      ]

  server_turn-Good :
      (decoy : Bytes) (st st' : Server H) (i : ServerInput) (b : Bool)
      → server_turn env decoy st i ≡ some (b, st')
      → Good st
      → Good st'
  unfolding server_turn
  server_turn-Good decoy st st' (datagrams m bs) b e good =
      drain_datagrams-Good (m ∷ bs) st st' b e good
  server_turn-Good decoy st st' (replies p ps) b e good =
      elim (Option-cases (drain_replies env st (p ∷ ps))) [
        | inl bad ↦ absurd (ground arith)
        | inr (st1, d) ↦
            let same : st1 ≡ st' = ground arith in
            rw (← same) (drain_replies-Good (p ∷ ps) st st1 d good)
      ]
  server_turn-Good decoy st st' ticked b e good = Same-Good st st' (tick-Same st st' b e) good
  server_turn-Good decoy st st' decoy_due b e good =
      elim (Option-cases (server_decoy env decoy st)) [
        | inl bad ↦ absurd (ground arith)
        | inr (st1, d) ↦
            let same : st1 ≡ st' = ground arith in
            rw (← same) (Same-Good st st1 (server_decoy-Same st st1 decoy d) good)
      ]
  server_turn-Good decoy st st' cancelled b e good =
      let same : st ≡ st' = ground arith in rw (← same) good

module _ {H : Type 0} (env : Env H) where
  run_session-Good :
      (rounds : List ServerRound) (st st' : Server H)
      → run_session env rounds st ≡ some st'
      → Good env st
      → Good env st'
  unfolding run_session
  run_session-Good [] st st' e good = let same : st ≡ st' = ground arith in rw (← same) good
  run_session-Good (x ∷ xs) st st' e good =
      let now : Env H = server_env_at env x in
      let st0 : Server H = record st { mgr = x.mgr; rate = x.rate } in
      elim (Option-cases (server_turn now x.decoy st0 x.input)) [
        | inl bad ↦ absurd (ground arith)
        | inr ((true, st1), d) ↦
            run_session-Good xs st1 st' (ground arith)
              (server_turn-Good now x.decoy st0 st1 x.input true d good)
        | inr ((false, st1), d) ↦
            Same-Good now st1 st' (finish-Same now st1 st' (ground arith))
              (server_turn-Good now x.decoy st0 st1 x.input false d good)
      ]

  -- Whatever a session that starts without keys puts on the server's TUN device over the whole of
  -- its life, whatever the other sessions do to the manager in between: each packet was the payload
  -- of a data frame that opened under a cipher which the last message of a handshake with a client
  -- gave for what the client sends; it is an IPv4 packet and not longer than the MTU.
  pub run_session-delivered :
      (rounds : List ServerRound) (st st' : Server H)
      → st.session.keys ≡ none
      → st.delivered ≡ []
      → run_session env rounds st ≡ some st'
      → All (FromTunnel env.noise env.mtu) st'.delivered
  run_session-delivered rounds st st' no_keys nothing e =
      (run_session-Good rounds st st' e (λ a has. absurd (ground arith), rw nothing tt)).1
