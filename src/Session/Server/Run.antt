-- ===== src/Session/Server/Run.antt =====
-- The loop of `run` in internal/session/server.go, with `finish` at its end. The other sessions run
-- between its rounds: a round starts with the manager and the cookie rates that they leave.
-- `transportReader` passes on no error, so that the loop sees datagrams only.
use vibe_vpn.Base.{
  ℕ, ◌-◌, Bool, true, false, not, ◌&&◌, Option, some, ltb, leb, if◌then◌else◌, List, [], ◌∷◌, Bytes,
}
use vibe_vpn.Base.Panic.{◌>>=◌}
use vibe_vpn.Wire.{msg_decoy}
use vibe_vpn.Session.Cookie.{RateBucket}
use vibe_vpn.Session.Manager.{Manager}
use vibe_vpn.Session.Server.{Env, Server, encrypt_send}
use vibe_vpn.Session.Server.Handle.{drain_recv, send_queued, has_keys, tick, finish}
use vibe_vpn.Session.Client.Run.{Moment}

-- What the select of `run` may take: datagrams, packets of `replyCh`, the two tickers, and the end
-- of the context.
pub data ServerInput : Type 0 where
  datagrams replies : Bytes → List Bytes → ServerInput
  ticked decoy_due cancelled : ServerInput

module _ {H : Type 0} (env : Env H) where
  -- drainLoop: what is buffered, up to a datagram that ends the session.
  unfoldable pub drain_datagrams : Server H → List Bytes → Option (Bool × Server H)
  drain_datagrams st [] = some (true, st)
  drain_datagrams st (b ∷ bs) = drain_recv env st b >>= λ d.
      let rest = drain_datagrams d.1 bs in if d.0 then rest else some (false, d.1)

  -- drainReply.
  unfoldable pub drain_replies : Server H → List Bytes → Option (Server H)
  drain_replies st [] = some st
  drain_replies st (p ∷ ps) = send_queued env st p >>= λ st1. drain_replies st1 ps

  -- There is no decoy timer without an interval.
  unfoldable pub server_decoy : Bytes → Server H → Option (Server H)
  server_decoy payload st =
      let s = st.session in
      let sent = encrypt_send env st msg_decoy payload >>= λ r. some r.1 in
      if ltb 0 env.shaping.decoy_interval
        && has_keys env s.keys
        && not s.rekeying
        && leb env.shaping.decoy_interval (env.now - s.last_data_send)
      then sent
      else some st

  -- The Boolean says whether the loop goes on.
  unfoldable pub server_turn : Bytes → Server H → ServerInput → Option (Bool × Server H)
  unfolding drain_datagrams drain_replies server_decoy
  server_turn decoy st (datagrams b bs) = drain_datagrams st (b ∷ bs)
  server_turn decoy st (replies p ps) = drain_replies st (p ∷ ps) >>= λ st1. some (true, st1)
  server_turn decoy st ticked = tick env st
  server_turn decoy st decoy_due = server_decoy decoy st >>= λ st1. some (true, st1)
  server_turn decoy st cancelled = some (false, st)

-- One round, with what the other sessions leave.
pub record ServerRound : Type 0 where
  pub moment : Moment
  pub peer_ip : Option (ℕ × Bytes)
  pub mgr : Manager
  pub rate : ℕ → Option RateBucket
  pub decoy : Bytes
  pub input : ServerInput

abbrev pub server_env_at : {H : Type 0} → Env H → ServerRound → Env H
server_env_at env x = record env {
  rng = x.moment.rng;
  now = x.moment.now;
  nonce = x.moment.nonce;
  random = x.moment.random;
  peer_ip = x.peer_ip;
  sends = x.moment.sends;
  writes = x.moment.writes;
}

module _ {H : Type 0} (env : Env H) where
  -- A loop that has returned is followed by `finish`, and then by nothing.
  unfoldable pub run_session : List ServerRound → Server H → Option (Server H)
  unfolding server_turn
  run_session [] st = some st
  run_session (x ∷ xs) st =
      let now = server_env_at env x in
      server_turn now x.decoy (record st { mgr = x.mgr; rate = x.rate }) x.input >>= λ d.
      let rest = run_session xs d.1 in if d.0 then rest else finish now d.1
