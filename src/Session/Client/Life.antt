-- ===== src/Session/Client/Life.antt =====
-- What the client delivers, and which keys it has, after the parts of the loop of `Run` that
-- handle frames.
use vibe_vpn.Base.{
  ℕ, ◌≡◌, ◌≤◌, Bool, true, false, Option, none, some, List, [], ◌∷◌, length, Bytes, All, All-append,
  ok, arith, refl, sym, ap, subst, ◌∙◌, Option-cases, inl, inr,
}
use vibe_vpn.Aead.{Aead}
use vibe_vpn.Wire.{msg_data}
use vibe_vpn.Framing.{Frame}
use vibe_vpn.Session.Keys.{Keys, open_wire}
use vibe_vpn.Session.Noise.{Noise}
use vibe_vpn.Session.Client.{
  ClientEnv, Client, Reply, fine, peer_gone, rekey_failed, is_ipv4, handle_frame,
}
use vibe_vpn.Session.Client.Connect.{Tunnel, ended, waiting, Attempt, reconnect}
use vibe_vpn.Session.Client.Connected.{Joined}
use vibe_vpn.Session.Client.Failed.{reconnect-Joined}
use vibe_vpn.Session.Client.Safety.{handle_frame-delivered}
use vibe_vpn.Session.Client.Trusted.{recv_of, FromHandshake, Kept, handle_frame-recv, Same}
use vibe_vpn.Session.Client.Quiet.{reconnect-delivered}
use vibe_vpn.Session.Client.Run.{
  Turn, next, inside, returned, set_session, reconnected, run_reconnect, handled, client_drain_recv,
  drain_frames,
}

-- A packet that a data frame carried. The frame opened under a cipher that a finished handshake
-- gave for what the server sends.
pub record Carried {H : Type 0} (noise : Noise H) (mtu : ℕ) (pkt : Bytes) : Type 0 where
  pub keys : Keys
  pub after : Keys
  pub datagram : Bytes
  pub frame : Frame
  pub from_handshake : FromHandshake noise keys.recv_aead
  pub opens : open_wire keys datagram ≡ some (ok frame, after)
  pub is_data : frame.type ≡ msg_data
  pub carries : frame.payload ≡ pkt
  pub fits : length pkt ≤ mtu
  pub ipv4 : is_ipv4 pkt ≡ true

module _ {H : Type 0} (noise : Noise H) (mtu : ℕ) where
  abbrev pub Keyed : Client H → Type 0
  Keyed c = (a : Aead) → recv_of c.keys ≡ some a → FromHandshake noise a

  abbrev pub Sound : Client H → Type 0
  Sound c = All (Carried noise mtu) c.delivered

  -- What holds after a part of `Run`: inside a connect nothing is read with the keys.
  abbrev pub Trusted : Turn H → Type 0
  Trusted (next t) = Keyed t.session × Sound t.session
  Trusted (inside t) = Sound t.session
  Trusted (returned t) = Sound t.session

  -- The tunnel that a part of `Run` leaves.
  abbrev pub tunnel_of : Turn H → Tunnel H
  tunnel_of (next t) = t
  tunnel_of (inside t) = t
  tunnel_of (returned t) = t

  pub Trusted-Sound : (u : Turn H) → Trusted u → Sound (tunnel_of u).session
  Trusted-Sound (next t) good = good.1
  Trusted-Sound (inside t) good = good
  Trusted-Sound (returned t) good = good

module _ {H : Type 0} (env : ClientEnv H) where
  abbrev pub Good : Client H → Type 0
  Good c = Keyed env.noise env.mtu c × Sound env.noise env.mtu c

  pub Same-Good : (c c' : Client H) → Same env c c' → Good c → Good c'
  Same-Good c c' (keys, out) (keyed, sound) = (λ a has. keyed a (sym keys ∙ has), rw out sound)

  pub Joined-Keyed :
      (t : Tunnel H) (tag : Bytes) → Joined env tag t → Keyed env.noise env.mtu t.session
  Joined-Keyed t tag j a has =
      let (k, keys, cipher) = j.keyed in
      record {
        last = j.last;
        message = j.message;
        over = j.over;
        ciphers = j.ciphers;
        wrote = j.wrote;
        is_cipher = ground (arith);
      }

  Kept-Keyed :
      (c c' : Client H) → Kept env c c' → Keyed env.noise env.mtu c → Keyed env.noise env.mtu c'
  Kept-Keyed c c' (inl same) keyed a has = keyed a (sym same ∙ has)
  Kept-Keyed c c' (inr (b, now, fresh)) keyed a has =
      let same : b ≡ a = ground arith in subst (FromHandshake env.noise) same fresh

  handle_frame-Good :
      (c c' : Client H) (msg : Bytes) (r : Reply)
      → handle_frame env c msg ≡ some (r, c')
      → Good c
      → Good c'
  handle_frame-Good c c' msg r e (keyed, sound) = (
    Kept-Keyed c c' (handle_frame-recv env c c' msg r e) keyed,
    elim (handle_frame-delivered env c c' msg r e) [
      | inl same ↦ rw same sound
      | inr d ↦
          let carried : Carried env.noise env.mtu d.frame.payload = record {
            keys = d.keys;
            after = d.next;
            datagram = msg;
            frame = d.frame;
            from_handshake = keyed d.keys.recv_aead (ap recv_of d.keyed);
            opens = d.opens;
            is_data = d.is_data;
            carries = refl;
            fits = d.fits;
            ipv4 = d.ipv4;
          } in
          rw d.out (
            All-append (Carried env.noise env.mtu) c.delivered (d.frame.payload ∷ []) sound
              (carried, tt))
    ],
  )

  pub run_reconnect-Trusted :
      (rounds : List Attempt) (t : Tunnel H) (r : Turn H)
      → Sound env.noise env.mtu t.session
      → run_reconnect env rounds t ≡ some r
      → Trusted env.noise env.mtu r
  unfolding run_reconnect reconnected
  run_reconnect-Trusted rounds t r sound e = elim (Option-cases (reconnect env rounds t)) [
    | inl bad ↦ absurd (ground arith)
    | inr (waiting t1, o) ↦
        let same : inside t1 ≡ r = ground arith in
        rw (← same) (rw (reconnect-delivered env rounds t (waiting t1) o) sound)
    | inr (ended good t1, o) ↦
        let same : next t1 ≡ r = ground arith in
        let (_, (tag, j)) = reconnect-Joined env rounds t t1 good o in
        rw (← same)
          (Joined-Keyed t1 tag j, rw (reconnect-delivered env rounds t (ended good t1) o) sound)
  ]

  handled-Trusted :
      (rounds : List Attempt) (t : Tunnel H) (r : Reply) (c : Client H) (b : Bool) (u : Turn H)
      → Good c
      → handled env rounds t (r, c) ≡ some (b, u)
      → Trusted env.noise env.mtu u
  unfolding handled
  handled-Trusted rounds t fine c b u good e =
      let same : next (set_session t c) ≡ u = ground arith in rw (← same) good
  handled-Trusted rounds t rekey_failed c b u good e =
      let same : next (set_session t c) ≡ u = ground arith in rw (← same) good
  handled-Trusted rounds t peer_gone c b u good e =
      elim (Option-cases (run_reconnect env rounds (set_session t c))) [
        | inl bad ↦ absurd (ground arith)
        | inr (v, o) ↦
            let same : v ≡ u = ground arith in
            rw (← same) (run_reconnect-Trusted rounds (set_session t c) v good.1 o)
      ]

  drain_recv-Trusted :
      (rounds : List Attempt) (t : Tunnel H) (r : Option Bytes) (b : Bool) (u : Turn H)
      → Good t.session
      → client_drain_recv env rounds t r ≡ some (b, u)
      → Trusted env.noise env.mtu u
  unfolding client_drain_recv
  drain_recv-Trusted rounds t none b u good e = elim (Option-cases (run_reconnect env rounds t)) [
    | inl bad ↦ absurd (ground arith)
    | inr (v, o) ↦
        let same : v ≡ u = ground arith in rw (← same) (run_reconnect-Trusted rounds t v good.1 o)
  ]
  drain_recv-Trusted rounds t (some m) b u good e =
      elim (Option-cases (handle_frame env t.session m)) [
        | inl bad ↦ absurd (ground arith)
        | inr ((r, c), h) ↦
            handled-Trusted rounds (record t { last_recv = env.now }) r c b u
              (handle_frame-Good t.session c m r h good) (ground arith)
      ]

  pub drain_frames-Trusted :
      (rounds : List Attempt) (rs : List (Option Bytes)) (t : Tunnel H) (u : Turn H)
      → Good t.session
      → drain_frames env rounds t rs ≡ some u
      → Trusted env.noise env.mtu u
  unfolding drain_frames
  drain_frames-Trusted rounds [] t u good e =
      let same : next t ≡ u = ground arith in rw (← same) good
  drain_frames-Trusted rounds (r ∷ rs) t u good e =
      elim (Option-cases (client_drain_recv env rounds t r)) [
        | inl bad ↦ absurd (ground arith)
        | inr ((b, inside t1), d) ↦
            let same : inside t1 ≡ u = ground arith in
            rw (← same) (drain_recv-Trusted rounds t r b (inside t1) good d)
        | inr ((b, returned t1), d) ↦
            let same : returned t1 ≡ u = ground arith in
            rw (← same) (drain_recv-Trusted rounds t r b (returned t1) good d)
        | inr ((true, next t1), d) ↦
            let same : next t1 ≡ u = ground arith in
            rw (← same) (drain_recv-Trusted rounds t r true (next t1) good d)
        | inr ((false, next t1), d) ↦
            drain_frames-Trusted rounds rs t1 u
              (drain_recv-Trusted rounds t r false (next t1) good d) (ground arith)
      ]
