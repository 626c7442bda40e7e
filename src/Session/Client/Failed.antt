-- ===== src/Session/Client/Failed.antt =====
-- What a failed `connect` leaves, and how `reconnect` ends.
use vibe_vpn.Base.{
  ℕ, ◌+◌, ◌≡◌, Bool, true, false, none, some, List, [], ◌∷◌, ◌++◌, Bytes, arith, refl, ◌∙◌,
  Option-cases, Bool-cases, inl, inr,
}
use vibe_vpn.Base.Panic.{◌>>=◌}
use vibe_vpn.Session.Keys.{new_keys}
use vibe_vpn.Session.Client.{ClientEnv, Client, parse_assign}
use vibe_vpn.Session.Client.Connect.{
  Event, received, broken, timed_out, cancelled, Wait, done, failed, blocked, Tunnel, teardown,
  client_send_raw, wait_reply, wait_assign, assigned, ended, waiting, settle, finish_handshake,
  replied, handshake, connect, Attempt, retry, reconnect,
}
use vibe_vpn.Session.Client.Connected.{Joined, connect-Joined}

module _ {H : Type 0} (env : ClientEnv H) where
  send_raw-keys :
      (c c' : Client H) (b : Bytes) → client_send_raw env c b ≡ some c' → c'.keys ≡ c.keys
  unfolding client_send_raw
  send_raw-keys c c' b e = ground arith

  wait_reply-keys :
      (evs : List Event) (c : Client H) (h : H) (cookie : Bool) (m1 : Bytes)
      → (wait_reply env evs c h cookie m1).0.keys ≡ c.keys
  unfolding wait_reply
  wait_reply-keys [] c h cookie m1 = refl
  wait_reply-keys (broken ∷ evs) c h cookie m1 = refl
  wait_reply-keys (timed_out ∷ evs) c h cookie m1 = refl
  wait_reply-keys (cancelled ∷ evs) c h cookie m1 = refl
  wait_reply-keys (received b ∷ evs) c h cookie m1 =
      elim (Option-cases (client_send_raw env c (m1 ++ b))) [
        | inl bad ↦ ground (arith, wait_reply-keys evs c h cookie m1)
        | inr (c1, s) ↦ ground (
          arith,
          wait_reply-keys evs c h cookie m1,
          wait_reply-keys evs c1 h true (m1 ++ b),
          send_raw-keys c c1 (m1 ++ b) s,
        )
      ]

  settle-failed :
      (t t' : Tunnel H) (c : Client H) (w : Wait Bytes)
      → settle env t c w ≡ some (ended false t')
      → (t'.session.keys ≡ none) × (t'.connected ≡ t.connected)
  unfolding settle assigned
  settle-failed t t' c blocked e = absurd (ground arith)
  settle-failed t t' c failed e = ground arith
  settle-failed t t' c (done payload rest) e = elim (Option-cases (parse_assign payload)) [
    | inl bad ↦ absurd (ground arith)
    | inr (none, p) ↦ ground arith
    | inr (some net, p) ↦ absurd (ground arith)
  ]

  finish_handshake-failed :
      (t t' : Tunnel H) (c : Client H) (h2 : H) (tag : Bytes) (evs : List Event)
      → c.keys ≡ none
      → finish_handshake env t c h2 tag evs ≡ some (ended false t')
      → (t'.session.keys ≡ none) × (t'.connected ≡ t.connected)
  unfolding finish_handshake
  finish_handshake-failed t t' c h2 tag evs unset e = elim (Option-cases (env.noise.write h2 [])) [
    | inl bad ↦ ground arith
    | inr ((m3, none, h3), w) ↦ ground arith
    | inr ((m3, some cs, h3), w) ↦ elim (Option-cases (client_send_raw env c m3)) [
      | inl bad ↦ ground arith
      | inr (c1, s) ↦
          elim (Option-cases
            (wait_assign env evs (record c1 { tag = tag }) (new_keys true cs.c2s cs.s2c))) [
              | inl bad ↦ absurd (ground arith)
              | inr ((c2, how), waited) ↦ settle-failed t t' c2 how (ground arith)
            ]
    ]
  ]

  replied-failed :
      (t t' : Tunnel H) (tag : Bytes) (r : Client H × Wait H)
      → r.0.keys ≡ none
      → replied env t tag r ≡ some (ended false t')
      → (t'.session.keys ≡ none) × (t'.connected ≡ t.connected)
  unfolding replied
  replied-failed t t' tag (c, blocked) unset e = absurd (ground arith)
  replied-failed t t' tag (c, failed) unset e = ground arith
  replied-failed t t' tag (c, done h2 rest) unset e =
      finish_handshake-failed t t' c h2 tag rest unset e

  -- A connect that fails, at whatever point, leaves a client without keys that is not connected.
  pub connect_failed :
      (dials : Bool) (t t' : Tunnel H) (tag : Bytes) (evs : List Event)
      → connect env dials t tag evs ≡ some (ended false t')
      → (t'.session.keys ≡ none) × (t'.connected ≡ false)
  unfolding connect handshake teardown
  connect_failed dials t t' tag evs e = elim (Bool-cases dials) [
    | inr no_dial ↦ ground arith
    | inl dialled ↦ elim (Option-cases (env.noise.new_client >>= λ h. env.noise.write h tag)) [
      | inl bad ↦ ground arith
      | inr ((m1, cs, h1), w) ↦ elim (Option-cases (client_send_raw env (teardown t).session m1)) [
        | inl bad ↦ ground arith
        | inr (c, s) ↦
            replied-failed (record (teardown t) { has_transport = true }) t' tag
              (wait_reply env evs c h1 false m1)
              (wait_reply-keys evs c h1 false m1 ∙ send_raw-keys (teardown t).session c m1 s)
              (ground arith)
      ]
    ]
  ]

  relabelled :
      (tag : Bytes) (t : Tunnel H) (now : ℕ)
      → Joined env tag t
      → Joined env tag (record t { last_recv = now })
  relabelled tag t now j = record {
    last = j.last;
    message = j.message;
    over = j.over;
    ciphers = j.ciphers;
    wrote = j.wrote;
    payload = j.payload;
    frame = j.frame;
    net = j.net;
    parses = j.parses;
    keyed = j.keyed;
    configured = j.configured;
    connected = j.connected;
  }

  retry-Joined :
      (rounds : List Attempt) (t t' : Tunnel H) (good : Bool)
      → retry env rounds t ≡ some (ended good t')
      → (good ≡ true) × ((tag : Bytes) × Joined env tag t')
  unfolding retry
  retry-Joined [] t t' good e = absurd (ground arith)
  retry-Joined (a ∷ more) t t' good e = elim (Option-cases (connect env a.dials t a.tag a.events)) [
    | inl bad ↦ absurd (ground arith)
    | inr (waiting t1, c) ↦ absurd (ground arith)
    | inr (ended false t1, c) ↦
        retry-Joined more (record t1 { reconnects = t1.reconnects + 1 }) t' good (ground arith)
    | inr (ended true t1, c) ↦
        let same : record t1 { last_recv = env.now } ≡ t' = ground arith in
        (
          ground arith,
          (
            a.tag,
            rw (← same)
                (relabelled a.tag t1 env.now (connect-Joined env a.dials t t1 a.tag a.events c)),
          ),
        )
  ]

  -- A reconnect ends in one way only: with a connection that one of the rounds made.
  pub reconnect-Joined :
      (rounds : List Attempt) (t t' : Tunnel H) (good : Bool)
      → reconnect env rounds t ≡ some (ended good t')
      → (good ≡ true) × ((tag : Bytes) × Joined env tag t')
  unfolding reconnect
  reconnect-Joined rounds t t' good e =
      retry-Joined rounds (teardown (record t { reconnects = t.reconnects + 1 })) t' good e
