-- ===== src/Session/Client/Rounds.antt =====
-- What the client delivers over the whole of `Run`.
mod Tests
use vibe_vpn.Base.{
  ℕ, ◌-◌, ◌≡◌, Bool, true, false, not, ◌&&◌, Option, none, some, ltb, leb, if◌then◌else◌, List, [],
  ◌∷◌, Bytes, All, arith, refl, sym, ◌∙◌, Option-cases, Bool-cases, inl, inr,
}
use vibe_vpn.Base.Panic.{◌>>=◌}
use vibe_vpn.Wire.{msg_keepalive, msg_decoy, msg_close}
use vibe_vpn.Session.Cookie.{put_u64}
use vibe_vpn.Session.Client.{ClientEnv, Client, client_encrypt_send, send_packet, maybe_rekey}
use vibe_vpn.Session.Client.Connect.{Tunnel, teardown, ended, waiting, connect, Attempt}
use vibe_vpn.Session.Client.Connected.{connect-Joined}
use vibe_vpn.Session.Client.Trusted.{Same, encrypt-recv, send_packet-Same, maybe_rekey-Same}
use vibe_vpn.Session.Client.Quiet.{connect-delivered}
use vibe_vpn.Session.Client.Run.{
  Turn, next, inside, returned, Input, frames, packets, keepalive_due, decoy_due, cancel,
  set_session, send_keepalive, send_decoy, has_keys, send_close, run_reconnect, drain_packets,
  alive, keepalive_tick, decoy_tick, shut_down, turn, first_connect, new_client, Moment, env_at,
  Round, turns, run_client,
}
use vibe_vpn.Session.Client.Life.{
  Carried, Keyed, Sound, Trusted, tunnel_of, Trusted-Sound, Good, Same-Good, Joined-Keyed,
  run_reconnect-Trusted, drain_frames-Trusted,
}

module _ {H : Type 0} (env : ClientEnv H) where
  sent-Same :
      (c c' : Client H) (typ : ℕ) (pt : Bytes)
      → client_encrypt_send env c typ pt >>= (λ r. some r.1) ≡ some c'
      → Same env c c'
  sent-Same c c' typ pt e = elim (Option-cases (client_encrypt_send env c typ pt)) [
    | inl bad ↦ absurd (ground arith)
    | inr ((b, c1), s) ↦
        let same : c1 ≡ c' = ground arith in rw (← same) (encrypt-recv env c c1 typ pt b s)
  ]

  Same-trans : (c c1 c2 : Client H) → Same env c c1 → Same env c1 c2 → Same env c c2
  Same-trans c c1 c2 (k, d) (k1, d1) = (k1 ∙ k, d1 ∙ d)

  drain_packets-Same :
      (ps : List Bytes) (c c' : Client H) → drain_packets env c ps ≡ some c' → Same env c c'
  unfolding drain_packets
  drain_packets-Same [] c c' e = let same : c ≡ c' = ground arith in rw (← same) (refl, refl)
  drain_packets-Same (p ∷ ps) c c' e = elim (Option-cases (send_packet env c p)) [
    | inl bad ↦ absurd (ground arith)
    | inr (c1, s) ↦
        Same-trans c c1 c' (send_packet-Same env c c1 p s)
          (drain_packets-Same ps c1 c' (ground arith))
  ]

  alive-Same : (c c' : Client H) → alive env c ≡ some c' → Same env c c'
  unfolding alive send_keepalive
  alive-Same c c' e = elim (Option-cases (send_keepalive env c)) [
    | inl bad ↦ absurd (ground arith)
    | inr (c1, s) ↦
        Same-trans c c1 c' (sent-Same c c1 msg_keepalive (put_u64 env.now) s)
          (maybe_rekey-Same env c1 c' (ground arith))
  ]

  send_close-Same : (c c' : Client H) → send_close env c ≡ some c' → Same env c c'
  unfolding send_close
  send_close-Same c c' e = elim (Bool-cases (has_keys env c.keys && not c.rekeying)) [
    | inl on ↦ sent-Same c c' msg_close [] (ground arith)
    | inr off ↦ let same : c ≡ c' = ground arith in rw (← same) (refl, refl)
  ]

  -- A turn that only sends.
  sends-Trusted :
      (t : Tunnel H) (u : Turn H) (o : Option (Client H))
      → ((c : Client H) → o ≡ some c → Same env t.session c)
      → Good env t.session
      → o >>= (λ c. some (next (set_session t c))) ≡ some u
      → Trusted env.noise env.mtu u
  sends-Trusted t u none keeps good e = absurd (ground arith)
  sends-Trusted t u (some c) keeps good e =
      let same : next (set_session t c) ≡ u = ground arith in
      rw (← same) (Same-Good env t.session c (keeps c refl) good)

  idle-Trusted :
      (t : Tunnel H) (u : Turn H)
      → Good env t.session
      → some (next t) ≡ some u
      → Trusted env.noise env.mtu u
  idle-Trusted t u good e = let same : next t ≡ u = ground arith in rw (← same) good

  keepalive_tick-Trusted :
      (timeout : ℕ) (rounds : List Attempt) (t : Tunnel H) (u : Turn H)
      → Good env t.session
      → keepalive_tick env timeout rounds t ≡ some u
      → Trusted env.noise env.mtu u
  unfolding keepalive_tick
  keepalive_tick-Trusted timeout rounds t u good e =
      elim (Bool-cases (ltb timeout (env.now - t.last_recv))) [
        | inl late ↦ run_reconnect-Trusted env rounds t u good.1 (ground arith)
        | inr early ↦ elim (Bool-cases (t.connected && not t.session.rekeying)) [
          | inl on ↦
              sends-Trusted t u (alive env t.session) (alive-Same t.session) good (ground arith)
          | inr off ↦ idle-Trusted t u good (ground arith)
        ]
      ]

  decoy_tick-Trusted :
      (payload : Bytes) (t : Tunnel H) (u : Turn H)
      → Good env t.session
      → decoy_tick env payload t ≡ some u
      → Trusted env.noise env.mtu u
  unfolding decoy_tick send_decoy
  decoy_tick-Trusted payload t u good e =
      elim (Bool-cases (
        ltb 0 env.shaping.decoy_interval
        && t.connected
        && not t.session.rekeying
        && leb env.shaping.decoy_interval (env.now - t.session.last_data_send))) [
          | inl due ↦
              sends-Trusted t u (send_decoy env t.session payload)
                (λ c s. sent-Same t.session c msg_decoy payload s) good (ground arith)
          | inr other ↦ idle-Trusted t u good (ground arith)
        ]

  shut_down-Trusted :
      (t : Tunnel H) (u : Turn H)
      → Good env t.session
      → shut_down env t ≡ some u
      → Trusted env.noise env.mtu u
  unfolding shut_down teardown
  shut_down-Trusted t u good e = elim (Option-cases (send_close env t.session)) [
    | inl bad ↦ absurd (ground arith)
    | inr (c, s) ↦
        let same : returned (teardown (set_session t c)) ≡ u = ground arith in
        let (_, sound) = Same-Good env t.session c (send_close-Same t.session c s) good in
        rw (← same) sound
  ]

  turn-Trusted :
      (timeout : ℕ) (rounds : List Attempt) (decoy : Bytes) (t : Tunnel H) (i : Input) (u : Turn H)
      → Good env t.session
      → turn env timeout rounds decoy t i ≡ some u
      → Trusted env.noise env.mtu u
  unfolding turn
  turn-Trusted timeout rounds decoy t (frames r rs) u good e =
      drain_frames-Trusted env rounds (r ∷ rs) t u good e
  turn-Trusted timeout rounds decoy t (packets p ps) u good e =
      sends-Trusted t u (drain_packets env t.session (p ∷ ps))
        (drain_packets-Same (p ∷ ps) t.session) good e
  turn-Trusted timeout rounds decoy t keepalive_due u good e =
      keepalive_tick-Trusted timeout rounds t u good e
  turn-Trusted timeout rounds decoy t decoy_due u good e = decoy_tick-Trusted decoy t u good e
  turn-Trusted timeout rounds decoy t cancel u good e = shut_down-Trusted t u good e

  first_connect-Trusted :
      (attempts : List Attempt) (t : Tunnel H) (u : Turn H)
      → Sound env.noise env.mtu t.session
      → first_connect env attempts t ≡ some u
      → Trusted env.noise env.mtu u
  unfolding first_connect
  first_connect-Trusted [] t u sound e = let same : inside t ≡ u = ground arith in rw (← same) sound
  first_connect-Trusted (a ∷ more) t u sound e =
      elim (Option-cases (connect env a.dials t a.tag a.events)) [
        | inl bad ↦ absurd (ground arith)
        | inr (waiting t1, c) ↦
            let same : inside t1 ≡ u = ground arith in
            rw (← same) (rw (connect-delivered env a.dials t a.tag a.events (waiting t1) c) sound)
        | inr (ended true t1, c) ↦
            let same : next (record t1 { last_recv = env.now }) ≡ u = ground arith in
            rw (← same) (
              Joined-Keyed env t1 a.tag (connect-Joined env a.dials t t1 a.tag a.events c),
              rw (connect-delivered env a.dials t a.tag a.events (ended true t1) c) sound,
            )
        | inr (ended false t1, c) ↦
            first_connect-Trusted more t1 u
              (rw (connect-delivered env a.dials t a.tag a.events (ended false t1) c) sound)
              (ground arith)
      ]

module _ {H : Type 0} (env : ClientEnv H) (timeout : ℕ) where
  turns-Trusted :
      (rounds : List Round) (u v : Turn H)
      → Trusted env.noise env.mtu u
      → turns env timeout rounds u ≡ some v
      → Trusted env.noise env.mtu v
  unfolding turns
  turns-Trusted [] u v good e = let same : u ≡ v = ground arith in rw (← same) good
  turns-Trusted (x ∷ xs) (inside t) v good e =
      let same : inside t ≡ v = ground arith in rw (← same) good
  turns-Trusted (x ∷ xs) (returned t) v good e =
      let same : returned t ≡ v = ground arith in rw (← same) good
  turns-Trusted (x ∷ xs) (next t) v good e =
      let now : ClientEnv H = env_at env x.moment in
      elim (Option-cases (turn now timeout x.attempts x.decoy t x.input)) [
        | inl bad ↦ absurd (ground arith)
        | inr (w, done) ↦
            turns-Trusted xs w v (turn-Trusted now timeout x.attempts x.decoy t x.input w good done)
              (ground arith)
      ]

  -- Every packet that the client puts on its TUN device, from its start on, over all reconnects and
  -- rekeys, was the payload of a data frame that opened under a cipher which a finished handshake
  -- gave for what the server sends; it is not longer than the MTU and starts like an IPv4 packet.
  pub run_client-delivered :
      (m : Moment) (attempts : List Attempt) (rounds : List Round) (requested : Option ℕ)
      (u : Turn H)
      → run_client env timeout m attempts rounds (new_client requested) ≡ some u
      → All (Carried env.noise env.mtu) (tunnel_of env.noise env.mtu u).session.delivered
  unfolding run_client new_client
  run_client-delivered m attempts rounds requested u e =
      elim (Option-cases (first_connect (env_at env m) attempts (new_client requested))) [
        | inl bad ↦ absurd (ground arith)
        | inr (w, c) ↦
            let good =
              turns-Trusted rounds w u
                (first_connect-Trusted (env_at env m) attempts (new_client requested) w tt c)
                (ground arith) in
            Trusted-Sound env.noise env.mtu u good
      ]
