-- ===== src/Session/Client/Run.antt =====
-- The loops of `Run` in internal/session/client.go: what each case of its select does.
use vibe_vpn.Base.{
  ℕ, ◌-◌, Bool, true, false, not, ◌&&◌, Option, none, some, ltb, leb, if◌then◌else◌, List, [], ◌∷◌,
  Bytes,
}
use vibe_vpn.Base.Panic.{◌>>=◌}
use vibe_vpn.Wire.{msg_keepalive, msg_decoy, msg_close}
use vibe_vpn.Framing.Shaping.{Rng}
use vibe_vpn.Session.Cookie.{put_u64}
use vibe_vpn.Session.Keys.{Keys}
use vibe_vpn.Session.Client.{
  ClientEnv, Client, Reply, fine, peer_gone, rekey_failed, client_encrypt_send, send_packet,
  maybe_rekey, handle_frame,
}
use vibe_vpn.Session.Client.Connect.{
  Tunnel, teardown, Outcome, ended, waiting, connect, Attempt, reconnect,
}

-- How a part of `Run` ends: the loop goes on, or it is still inside a connect or reconnect, or
-- `Run` has returned.
pub data Turn (H : Type 0) : Type 0 where
  next : Tunnel H → Turn H
  inside : Tunnel H → Turn H
  returned : Tunnel H → Turn H

-- What the select of `Run` may take: datagrams of `recvCh` (`none` is an error of the transport),
-- packets of the TUN device, the two tickers, and the end of the context.
pub data Input : Type 0 where
  frames : Option Bytes → List (Option Bytes) → Input
  packets : Bytes → List Bytes → Input
  keepalive_due decoy_due cancel : Input

abbrev pub set_session : {H : Type 0} → Tunnel H → Client H → Tunnel H
set_session t c = record t { session = c }

module _ {H : Type 0} (env : ClientEnv H) where
  unfoldable pub send_keepalive : Client H → Option (Client H)
  send_keepalive c = client_encrypt_send env c msg_keepalive (put_u64 env.now) >>= λ r. some r.1

  unfoldable pub send_decoy : Client H → Bytes → Option (Client H)
  send_decoy c payload = client_encrypt_send env c msg_decoy payload >>= λ r. some r.1

  unfoldable pub has_keys : Option Keys → Bool
  has_keys none = false
  has_keys (some k) = true

  unfoldable pub send_close : Client H → Option (Client H)
  unfolding has_keys
  send_close c =
      let sent = client_encrypt_send env c msg_close [] >>= λ r. some r.1 in
      if has_keys c.keys && not c.rekeying then sent else some c

  -- A reconnect ends with a connection, or it still tries.
  unfoldable pub reconnected : Outcome env → Turn H
  reconnected (ended good t) = next t
  reconnected (waiting t) = inside t

  unfoldable pub run_reconnect : List Attempt → Tunnel H → Option (Turn H)
  unfolding reconnected
  run_reconnect rounds t = reconnect env rounds t >>= λ o. some (reconnected o)

  -- The Boolean of `drainRecv` says whether the loop should stop draining.
  unfoldable pub handled : List Attempt → Tunnel H → Reply × Client H → Option (Bool × Turn H)
  unfolding run_reconnect
  handled rounds t (fine, c) = some (false, next (set_session t c))
  handled rounds t (rekey_failed, c) = some (false, next (set_session t c))
  handled rounds t (peer_gone, c) = run_reconnect rounds (set_session t c) >>= λ r. some (true, r)

  unfoldable pub client_drain_recv : List Attempt → Tunnel H → Option Bytes → Option (Bool × Turn H)
  unfolding handled
  client_drain_recv rounds t none = run_reconnect rounds t >>= λ r. some (true, r)
  client_drain_recv rounds t (some b) =
      handle_frame env t.session b >>= handled rounds (record t { last_recv = env.now })

  -- drainLoop: the frames that are buffered, up to one that ends it.
  unfoldable pub drain_frames : List Attempt → Tunnel H → List (Option Bytes) → Option (Turn H)
  unfolding client_drain_recv
  drain_frames rounds t [] = some (next t)
  drain_frames rounds t (r ∷ rs) = client_drain_recv rounds t r >>= λ d. elim d.1 [
    | next t1 ↦ let rest = drain_frames rounds t1 rs in if d.0 then some (next t1) else rest
    | inside t1 ↦ some (inside t1)
    | returned t1 ↦ some (returned t1)
  ]

  -- drainTun.
  unfoldable pub drain_packets : Client H → List Bytes → Option (Client H)
  drain_packets c [] = some c
  drain_packets c (p ∷ ps) = send_packet env c p >>= λ c1. drain_packets c1 ps

  unfoldable pub alive : Client H → Option (Client H)
  unfolding send_keepalive
  alive c = send_keepalive c >>= maybe_rekey env

  unfoldable pub keepalive_tick : ℕ → List Attempt → Tunnel H → Option (Turn H)
  unfolding run_reconnect alive
  keepalive_tick session_timeout rounds t =
      let again = run_reconnect rounds t in
      let sent = alive t.session >>= λ c. some (next (set_session t c)) in
      if ltb session_timeout (env.now - t.last_recv)
      then again
      else if t.connected && not t.session.rekeying
      then sent
      else some (next t)

  -- There is no decoy timer without an interval.
  unfoldable pub decoy_tick : Bytes → Tunnel H → Option (Turn H)
  unfolding send_decoy
  decoy_tick payload t =
      let sent = send_decoy t.session payload >>= λ c. some (next (set_session t c)) in
      if ltb 0 env.shaping.decoy_interval
        && t.connected
        && not t.session.rekeying
        && leb env.shaping.decoy_interval (env.now - t.session.last_data_send)
      then sent
      else some (next t)

  unfoldable pub shut_down : Tunnel H → Option (Turn H)
  unfolding send_close
  shut_down t = send_close t.session >>= λ c. some (returned (teardown (set_session t c)))

  -- One round of the loop. `rounds` are those of a reconnect, if there is one, and `decoy` is the
  -- payload of a decoy, if one is sent.
  unfoldable pub turn : ℕ → List Attempt → Bytes → Tunnel H → Input → Option (Turn H)
  unfolding drain_frames drain_packets keepalive_tick decoy_tick shut_down
  turn session_timeout rounds decoy t (frames r rs) = drain_frames rounds t (r ∷ rs)
  turn session_timeout rounds decoy t (packets p ps) =
      drain_packets t.session (p ∷ ps) >>= λ c. some (next (set_session t c))
  turn session_timeout rounds decoy t keepalive_due = keepalive_tick session_timeout rounds t
  turn session_timeout rounds decoy t decoy_due = decoy_tick decoy t
  turn session_timeout rounds decoy t cancel = shut_down t

  -- The loop of the first connection; rounds that are not there have not happened yet, and none
  -- follows the end of the context.
  unfoldable pub first_connect : List Attempt → Tunnel H → Option (Turn H)
  first_connect [] t = some (inside t)
  first_connect (a ∷ more) t = connect env a.dials t a.tag a.events >>= λ o. elim o [
    | waiting t1 ↦ some (inside t1)
    | ended true t1 ↦ some (next (record t1 { last_recv = env.now }))
    | ended false t1 ↦ first_connect more t1
  ]

-- NewClient, with cfg.ClientIP.
unfoldable pub new_client : {H : Type 0} → Option ℕ → Tunnel H
new_client requested = record {
  session = record {
    keys = none;
    tag = [];
    last_rekey = 0;
    rekeying = false;
    rekey_hs = none;
    stats = record {
      packets_sent = 0;
      bytes_sent = 0;
      packets_received = 0;
      bytes_received = 0;
      packets_dropped = 0;
      rekeys = 0;
    };
    last_data_send = 0;
    sent = [];
    delivered = [];
  };
  ip = none;
  gw = none;
  prefix = 0;
  requested_ip = requested;
  connected = false;
  has_transport = false;
  last_recv = 0;
  handshakes = 0;
  reconnects = 0;
}

-- What the clock, the random source, the transport and the TUN device do in a round.
pub record Moment : Type 0 where
  pub rng : Rng
  pub now : ℕ
  pub nonce : Bytes
  pub random : ℕ → Bytes
  pub sends : Bytes → Bool
  pub writes : Bytes → Bool

abbrev pub env_at : {H : Type 0} → ClientEnv H → Moment → ClientEnv H
env_at env m = record env {
  rng = m.rng;
  now = m.now;
  nonce = m.nonce;
  random = m.random;
  sends = m.sends;
  writes = m.writes;
}

-- One round of the loop of `Run`.
pub record Round : Type 0 where
  pub moment : Moment
  pub attempts : List Attempt
  pub decoy : Bytes
  pub input : Input

module _ {H : Type 0} (env : ClientEnv H) (session_timeout : ℕ) where
  -- A loop that is inside a connect waits, and one that has returned does nothing.
  unfoldable pub turns : List Round → Turn H → Option (Turn H)
  turns [] r = some r
  turns (x ∷ xs) (inside t) = some (inside t)
  turns (x ∷ xs) (returned t) = some (returned t)
  turns (x ∷ xs) (next t) =
      turn (env_at env x.moment) session_timeout x.attempts x.decoy t x.input >>= turns xs

  -- `Run`, from its first connection on.
  unfoldable pub run_client : Moment → List Attempt → List Round → Tunnel H → Option (Turn H)
  unfolding turns
  run_client m attempts rounds t = first_connect (env_at env m) attempts t >>= turns rounds
