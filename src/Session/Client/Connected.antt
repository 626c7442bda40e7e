-- ===== src/Session/Client/Connected.antt =====
-- What `connect` and `reconnect` of the client leave behind.
use vibe_vpn.Base.{
  ℕ, ◌≡◌, Bool, true, false, none, some, List, [], ◌∷◌, Bytes, Result, ok, err, arith, refl, ap,
  ◌∙◌, sym, Option-cases, Bool-cases, inl, inr,
}
use vibe_vpn.Base.Panic.{◌>>=◌}
use vibe_vpn.Aead.{Aead}
use vibe_vpn.Wire.{msg_assign}
use vibe_vpn.Framing.{Frame}
use vibe_vpn.Session.Keys.{Keys, Error, new_keys, open_wire}
use vibe_vpn.Session.Keys.Open.{open_wire_total, open_wire_err, open_wire_ok}
use vibe_vpn.Session.Noise.{Ciphers}
use vibe_vpn.Session.Cookie.{bytes_eq_sound}
use vibe_vpn.Session.Client.{ClientEnv, Client, parse_assign}
use vibe_vpn.Session.Client.Connect.{
  Event, received, broken, timed_out, cancelled, Wait, done, failed, blocked, Tunnel, teardown,
  client_send_raw, wait_reply, assignment, wait_assign, assigned, ended, settle, finish_handshake,
  replied, handshake, connect,
}

module _ {H : Type 0} (env : ClientEnv H) where
  -- The frame that carried the assignment: it opened under the cipher `a` of the server's side and
  -- bears the tag.
  pub record Assigned (a : Aead) (tag payload : Bytes) : Type 0 where
    pub datagram : Bytes
    pub before : Keys
    pub after : Keys
    pub frame : Frame
    pub cipher : before.recv_aead ≡ a
    pub opens : open_wire before datagram ≡ some (ok frame, after)
    pub tagged : frame.tag ≡ tag
    pub is_assign : frame.type ≡ msg_assign
    pub carries : frame.payload ≡ payload

  assignment-some :
      (c : Client H) (f : Frame) (payload : Bytes)
      → assignment env c (ok f) ≡ some payload
      → (f.tag ≡ c.tag) × (f.type ≡ msg_assign) × (f.payload ≡ payload)
  unfolding assignment
  assignment-some c f payload e = ground (arith, bytes_eq_sound f.tag c.tag)

  open_wire-recv :
      (k k' : Keys) (b : Bytes) (r : Result Error Frame)
      → open_wire k b ≡ some (r, k')
      → k'.recv_aead ≡ k.recv_aead
  open_wire-recv k k' b (ok f) o =
      let (_, _, next) = open_wire_ok k k' b f o in ap (λ (x : Keys). x.recv_aead) next
  open_wire-recv k k' b (err e) o = ap (λ (x : Keys). x.recv_aead) (open_wire_err k k' b e o)

  -- A frame that did not open does not end the wait.
  wait_assign-next :
      (evs : List Event) (c : Client H) (k k1 : Keys) (b : Bytes) (why : Error)
      → open_wire k b ≡ some (err why, k1)
      → wait_assign env (received b ∷ evs) c k ≡ wait_assign env evs c k1
  unfolding wait_assign assignment
  wait_assign-next evs c k k1 b why o = ground arith

  wait_assign-done :
      (a : Aead) (evs rest : List Event) (c c' : Client H) (k : Keys) (payload : Bytes)
      → k.recv_aead ≡ a
      → wait_assign env evs c k ≡ some (c', done payload rest)
      → Assigned a c.tag payload × ((k' : Keys) × (c'.keys ≡ some k') × (k'.recv_aead ≡ a))
  unfolding wait_assign
  wait_assign-done a [] rest c c' k payload same e = absurd (ground arith)
  wait_assign-done a (broken ∷ evs) rest c c' k payload same e = absurd (ground arith)
  wait_assign-done a (timed_out ∷ evs) rest c c' k payload same e = absurd (ground arith)
  wait_assign-done a (cancelled ∷ evs) rest c c' k payload same e = absurd (ground arith)
  wait_assign-done a (received b ∷ evs) rest c c' k payload same e =
      elim (Option-cases (open_wire k b)) [
        | inl bad ↦ absurd (open_wire_total k b bad)
        | inr ((err why, k1), o) ↦
            wait_assign-done a evs rest c c' k1 payload (open_wire-recv k k1 b (err why) o ∙ same)
              (sym (wait_assign-next evs c k k1 b why o) ∙ e)
        | inr ((ok f, k1), o) ↦ elim (Option-cases (assignment env c (ok f))) [
          | inl other ↦
              wait_assign-done a evs rest c c' k1 payload (open_wire-recv k k1 b (ok f) o ∙ same)
                (ground arith)
          | inr (p, is) ↦
              let (tag, typ, content) = assignment-some c f p is in
              let same_payload : p ≡ payload = ground arith in
              (
                record {
                  datagram = b;
                  before = k;
                  after = k1;
                  frame = f;
                  cipher = same;
                  opens = o;
                  tagged = tag;
                  is_assign = typ;
                  carries = content ∙ same_payload;
                },
                (k1, ground arith, open_wire-recv k k1 b (ok f) o ∙ same),
              )
        ]
      ]

  -- A client that is connected: the handshake gave the ciphers, a frame under the server's one
  -- carried the assignment, and the tunnel has what it says.
  pub record Joined (tag : Bytes) (t : Tunnel H) : Type 0 where
    pub last : H
    pub message : Bytes
    pub over : H
    pub ciphers : Ciphers
    pub wrote : env.noise.write last [] ≡ some (message, some ciphers, over)
    pub payload : Bytes
    pub frame : Assigned ciphers.s2c tag payload
    pub net : ℕ × ℕ × ℕ
    pub parses : parse_assign payload ≡ some (some net)
    pub keyed : (k : Keys) × (t.session.keys ≡ some k) × (k.recv_aead ≡ ciphers.s2c)
    pub configured : (t.prefix ≡ net.0) × (t.ip ≡ some net.1) × (t.gw ≡ some net.2)
    pub connected : t.connected ≡ true

  settle-ended :
      (t t' : Tunnel H) (c : Client H) (w : Wait Bytes)
      → settle env t c w ≡ some (ended true t')
      → (payload : Bytes) × (rest : List Event) × (net : ℕ × ℕ × ℕ) × (w ≡ done payload rest)
        × (parse_assign payload ≡ some (some net))
        × (t'.session.keys ≡ c.keys)
        × (t'.prefix ≡ net.0)
        × (t'.ip ≡ some net.1)
        × (t'.gw ≡ some net.2)
        × (t'.connected ≡ true)
  unfolding settle assigned
  settle-ended t t' c blocked e = absurd (ground arith)
  settle-ended t t' c failed e = absurd (ground arith)
  settle-ended t t' c (done payload rest) e = elim (Option-cases (parse_assign payload)) [
    | inl bad ↦ absurd (ground arith)
    | inr (none, p) ↦ absurd (ground arith)
    | inr (some (prefix, ip, gw), p) ↦ (
      payload,
      rest,
      (prefix, ip, gw),
      refl,
      p,
      ground arith,
      ground arith,
      ground arith,
      ground arith,
      ground arith,
    )
  ]

  finish_handshake-ended :
      (t t' : Tunnel H) (c : Client H) (h2 : H) (tag : Bytes) (evs : List Event)
      → finish_handshake env t c h2 tag evs ≡ some (ended true t')
      → Joined tag t'
  unfolding finish_handshake
  finish_handshake-ended t t' c h2 tag evs e = elim (Option-cases (env.noise.write h2 [])) [
    | inl bad ↦ absurd (ground arith)
    | inr ((m3, none, h3), w) ↦ absurd (ground arith)
    | inr ((m3, some cs, h3), w) ↦ elim (Option-cases (client_send_raw env c m3)) [
      | inl bad ↦ absurd (ground arith)
      | inr (c1, s) ↦
          let keys : Keys = new_keys true cs.c2s cs.s2c in
          elim (Option-cases (wait_assign env evs (record c1 { tag = tag }) keys)) [
            | inl bad ↦ absurd (ground arith)
            | inr ((c2, how), waited) ↦
                let settled : settle env t c2 how ≡ some (ended true t') = ground arith in
                let (payload, rest, net, is, p, kept, pre, ip, gw, on) =
                  settle-ended t t' c2 how settled in
                let (frame, (k, has, recv)) =
                  wait_assign-done cs.s2c evs rest (record c1 { tag = tag }) c2 keys payload
                    (unfold new_keys in refl) (rw is at waited) in
                record {
                  last = h2;
                  message = m3;
                  over = h3;
                  ciphers = cs;
                  wrote = w;
                  payload = payload;
                  frame = frame;
                  net = net;
                  parses = p;
                  keyed = (k, kept ∙ has, recv);
                  configured = (pre, ip, gw);
                  connected = on;
                }
          ]
    ]
  ]

  replied-ended :
      (t t' : Tunnel H) (tag : Bytes) (r : Client H × Wait H)
      → replied env t tag r ≡ some (ended true t')
      → Joined tag t'
  unfolding replied
  replied-ended t t' tag (c, blocked) e = absurd (ground arith)
  replied-ended t t' tag (c, failed) e = absurd (ground arith)
  replied-ended t t' tag (c, done h2 rest) e = finish_handshake-ended t t' c h2 tag rest e

  -- A connect that succeeds leaves a client whose keys come from a finished handshake, and whose
  -- address, gateway and prefix stand in a frame that opened under the server's cipher of that
  -- handshake and bears the tag of the connection.
  pub connect-Joined :
      (dials : Bool) (t t' : Tunnel H) (tag : Bytes) (evs : List Event)
      → connect env dials t tag evs ≡ some (ended true t')
      → Joined tag t'
  unfolding connect handshake
  connect-Joined dials t t' tag evs e = elim (Bool-cases dials) [
    | inr no_dial ↦ absurd (ground arith)
    | inl dialled ↦ elim (Option-cases (env.noise.new_client >>= λ h. env.noise.write h tag)) [
      | inl bad ↦ absurd (ground arith)
      | inr ((m1, cs, h1), w) ↦ elim (Option-cases (client_send_raw env (teardown t).session m1)) [
        | inl bad ↦ absurd (ground arith)
        | inr (c, s) ↦
            replied-ended (record (teardown t) { has_transport = true }) t' tag
              (wait_reply env evs c h1 false m1) (ground arith)
      ]
    ]
  ]
