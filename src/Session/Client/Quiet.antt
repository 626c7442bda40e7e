-- ===== src/Session/Client/Quiet.antt =====
-- Neither `connect` nor `reconnect` of the client puts anything on its TUN device.
use vibe_vpn.Base.{
  ◌+◌, ◌≡◌, Bool, true, false, none, some, List, [], ◌∷◌, ◌++◌, Bytes, arith, refl, ◌∙◌,
  Option-cases, Bool-cases, inl, inr,
}
use vibe_vpn.Base.Panic.{◌>>=◌}
use vibe_vpn.Session.Keys.{Keys, new_keys, open_wire}
use vibe_vpn.Session.Client.{ClientEnv, Client, parse_assign}
use vibe_vpn.Session.Client.Connect.{
  Event, received, broken, timed_out, cancelled, Wait, done, failed, blocked, Tunnel, teardown,
  client_send_raw, wait_reply, assignment, wait_assign, assigned, Outcome, ended, waiting, settle,
  finish_handshake, replied, handshake, connect, Attempt, retry, reconnect,
}

module _ {H : Type 0} (env : ClientEnv H) where
  -- The client that an outcome leaves.
  abbrev pub left : Outcome env → Tunnel H
  left (ended good t) = t
  left (waiting t) = t

  send_raw-delivered :
      (c c' : Client H) (b : Bytes) → client_send_raw env c b ≡ some c' → c'.delivered ≡ c.delivered
  unfolding client_send_raw
  send_raw-delivered c c' b e = ground arith

  wait_reply-delivered :
      (evs : List Event) (c : Client H) (h : H) (cookie : Bool) (m1 : Bytes)
      → (wait_reply env evs c h cookie m1).0.delivered ≡ c.delivered
  unfolding wait_reply
  wait_reply-delivered [] c h cookie m1 = refl
  wait_reply-delivered (broken ∷ evs) c h cookie m1 = refl
  wait_reply-delivered (timed_out ∷ evs) c h cookie m1 = refl
  wait_reply-delivered (cancelled ∷ evs) c h cookie m1 = refl
  wait_reply-delivered (received b ∷ evs) c h cookie m1 =
      elim (Option-cases (client_send_raw env c (m1 ++ b))) [
        | inl bad ↦ ground (arith, wait_reply-delivered evs c h cookie m1)
        | inr (c1, s) ↦ ground (
          arith,
          wait_reply-delivered evs c h cookie m1,
          wait_reply-delivered evs c1 h true (m1 ++ b),
          send_raw-delivered c c1 (m1 ++ b) s,
        )
      ]

  wait_assign-delivered :
      (evs : List Event) (c c' : Client H) (k : Keys) (w : Wait Bytes)
      → wait_assign env evs c k ≡ some (c', w)
      → c'.delivered ≡ c.delivered
  unfolding wait_assign
  wait_assign-delivered [] c c' k w e = ground arith
  wait_assign-delivered (broken ∷ evs) c c' k w e = ground arith
  wait_assign-delivered (timed_out ∷ evs) c c' k w e = ground arith
  wait_assign-delivered (cancelled ∷ evs) c c' k w e = ground arith
  wait_assign-delivered (received b ∷ evs) c c' k w e = elim (Option-cases (open_wire k b)) [
    | inl bad ↦ absurd (ground arith)
    | inr ((r, k1), o) ↦ elim (Option-cases (assignment env c r)) [
      | inl other ↦ wait_assign-delivered evs c c' k1 w (ground arith)
      | inr (p, is) ↦ ground arith
    ]
  ]

  settle-delivered :
      (t : Tunnel H) (c : Client H) (w : Wait Bytes) (o : Outcome env)
      → settle env t c w ≡ some o
      → (left o).session.delivered ≡ c.delivered
  unfolding settle assigned
  settle-delivered t c blocked o e = ground arith
  settle-delivered t c failed o e = ground arith
  settle-delivered t c (done payload rest) o e = elim (Option-cases (parse_assign payload)) [
    | inl bad ↦ absurd (ground arith)
    | inr (none, p) ↦ ground arith
    | inr (some net, p) ↦ ground arith
  ]

  finish_handshake-delivered :
      (t : Tunnel H) (c : Client H) (h2 : H) (tag : Bytes) (evs : List Event) (o : Outcome env)
      → finish_handshake env t c h2 tag evs ≡ some o
      → (left o).session.delivered ≡ c.delivered
  unfolding finish_handshake
  finish_handshake-delivered t c h2 tag evs o e = elim (Option-cases (env.noise.write h2 [])) [
    | inl bad ↦ ground arith
    | inr ((m3, none, h3), w) ↦ ground arith
    | inr ((m3, some cs, h3), w) ↦ elim (Option-cases (client_send_raw env c m3)) [
      | inl bad ↦ ground arith
      | inr (c1, s) ↦
          let keys : Keys = new_keys true cs.c2s cs.s2c in
          elim (Option-cases (wait_assign env evs (record c1 { tag = tag }) keys)) [
            | inl bad ↦ absurd (ground arith)
            | inr ((c2, how), waited) ↦
                settle-delivered t c2 how o (ground arith)
                ∙ wait_assign-delivered evs (record c1 { tag = tag }) c2 keys how waited
                ∙ send_raw-delivered c c1 m3 s
          ]
    ]
  ]

  replied-delivered :
      (t : Tunnel H) (tag : Bytes) (r : Client H × Wait H) (o : Outcome env)
      → replied env t tag r ≡ some o
      → (left o).session.delivered ≡ r.0.delivered
  unfolding replied
  replied-delivered t tag (c, blocked) o e = ground arith
  replied-delivered t tag (c, failed) o e = ground arith
  replied-delivered t tag (c, done h2 rest) o e = finish_handshake-delivered t c h2 tag rest o e

  pub connect-delivered :
      (dials : Bool) (t : Tunnel H) (tag : Bytes) (evs : List Event) (o : Outcome env)
      → connect env dials t tag evs ≡ some o
      → (left o).session.delivered ≡ t.session.delivered
  unfolding connect handshake teardown
  connect-delivered dials t tag evs o e = elim (Bool-cases dials) [
    | inr no_dial ↦ ground arith
    | inl dialled ↦ elim (Option-cases (env.noise.new_client >>= λ h. env.noise.write h tag)) [
      | inl bad ↦ ground arith
      | inr ((m1, cs, h1), w) ↦ elim (Option-cases (client_send_raw env (teardown t).session m1)) [
        | inl bad ↦ ground arith
        | inr (c, s) ↦
            replied-delivered (record (teardown t) { has_transport = true }) tag
              (wait_reply env evs c h1 false m1) o (ground arith)
            ∙ wait_reply-delivered evs c h1 false m1
            ∙ send_raw-delivered (teardown t).session c m1 s
      ]
    ]
  ]

  retry-delivered :
      (rounds : List Attempt) (t : Tunnel H) (o : Outcome env)
      → retry env rounds t ≡ some o
      → (left o).session.delivered ≡ t.session.delivered
  unfolding retry
  retry-delivered [] t o e = ground arith
  retry-delivered (a ∷ more) t o e = elim (Option-cases (connect env a.dials t a.tag a.events)) [
    | inl bad ↦ absurd (ground arith)
    | inr (waiting t1, c) ↦
        ground (arith, connect-delivered a.dials t a.tag a.events (waiting t1) c)
    | inr (ended true t1, c) ↦
        ground (arith, connect-delivered a.dials t a.tag a.events (ended true t1) c)
    | inr (ended false t1, c) ↦
        retry-delivered more (record t1 { reconnects = t1.reconnects + 1 }) o (ground arith)
        ∙ connect-delivered a.dials t a.tag a.events (ended false t1) c
  ]

  pub reconnect-delivered :
      (rounds : List Attempt) (t : Tunnel H) (o : Outcome env)
      → reconnect env rounds t ≡ some o
      → (left o).session.delivered ≡ t.session.delivered
  unfolding reconnect teardown
  reconnect-delivered rounds t o e =
      retry-delivered rounds (teardown (record t { reconnects = t.reconnects + 1 })) o e
