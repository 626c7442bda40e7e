-- ===== src/Session/Server/Tests.antt =====
-- A session of the server with a toy handshake: state 0 reads the first message, state 2 the last.
use vibe_vpn.Base.{
  ℕ, All, ◌+◌, ◌-◌, ◌*◌, ◌^◌, ◌≡◌, ◌≤◌, ◌⊎◌, refl, true, false, Option, none, some, List, [], ◌∷◌,
  ◌++◌, Bytes, err, pos, get_be, take, if◌then◌else◌, ◌==◌, replicate,
}
use vibe_vpn.Aead.Clear.{clear}
use vibe_vpn.Replay.{new_replay_window, check, add}
use vibe_vpn.Framing
use vibe_vpn.Framing.Shaping.{padding_for}
use vibe_vpn.Ippkt
use vibe_vpn.Session.Pool.{scan, hosts, alloc}
use vibe_vpn.Session.Keys.{Keys, short, new_keys, open_wire, seal}
use vibe_vpn.Session.Noise.{Ciphers}
use vibe_vpn.Session.Manager.{Manager, no_entry}
use vibe_vpn.Session.Manager.Adopt.{adopt, allow_peer, set_client_key, remove}
use vibe_vpn.Session.Server.{
  Env, Server, Verdict, go_on, encrypt_send, transmit, handshake3, encrypt_with, send_then_go_on,
  admit, establish, assign_payload,
}
use vibe_vpn.Session.Server.Handle.{
  handle, opened, dispatch, handle_data, from_source, deliver, rekey3, finish_rekey, switch_keys,
  tick, has_keys, drain_recv, finish,
}
use vibe_vpn.Session.Server.Deliver.{Delivered, handle-delivered}
use vibe_vpn.Session.Client.Run.{Moment}
use vibe_vpn.Session.Server.Run.{
  ServerInput, datagrams, cancelled, drain_datagrams, server_turn, ServerRound, run_session,
}
use vibe_vpn.Session.Server.Life.{FromTunnel, run_session-delivered}
use vibe_vpn.Session.Server.Rekeying.{
  tick-timeouts, Rekeyed, Authenticated, rekey3-keys, handle_authenticates,
}

abbrev ciphers : Ciphers
ciphers = record { c2s = clear; s2c = clear }

abbrev toy_read : ℕ → Bytes → Option (Bytes × Option Ciphers × ℕ)
toy_read h msg = if h == 2 then some ([], some ciphers, 3) else some (take 4 msg, none, 1)

abbrev env : Env ℕ
env = record {
  noise = record {
    new_server = some 0;
    new_client = some 0;
    read = toy_read;
    write = λ h text. some (5 ∷ [], none, 2);
    peer_static = λ h. some 77;
  };
  mac = λ key text. key ++ text;
  secret = [];
  mtu = 1400;
  session_timeout = 100;
  handshake_timeout = 10;
  shaping = record {
    padding = "none";
    pad_to = pos 0;
    bucket = pos 0;
    rand_max = pos 0;
    decoy_interval = 0;
    jitter = 0;
  };
  rng = record { bytes = λ i. 0; used = 0 };
  now = 50;
  nonce = replicate 12 0;
  random = λ n. replicate n 0;
  peer_ip = none;
  sends = λ b. true;
  writes = λ b. true;
}

abbrev base : ℕ
base = 10 * 2 ^ 24 + 8 * 2 ^ 16

abbrev start : Server ℕ
start = record {
  mgr = record {
    max_sessions = 1024;
    gw = base + 1;
    prefix = 29;
    by_id = (1, 0) ∷ [];
    by_ip = λ ip. none;
    by_static = λ key. none;
    next_id = 1;
    pool = record {
      network = record { ip = base; ones = 29 };
      gateway_ip = base + 1;
      used = λ ip. false;
    };
    peers = 77 ∷ [];
    stats = record { sessions = pos 1; sessions_total = 1; dropped = 0; handshakes = 0 };
    entry = λ r. if r == 0 then record no_entry { sid = 1; running = true } else no_entry;
    next_ref = 1;
  };
  rate = λ key. none;
  session = record {
    self = 0;
    created = 45;
    hs = some 2;
    tag = 1 ∷ 2 ∷ 3 ∷ 4 ∷ [];
    rekey_hs = none;
    rekeying = false;
    rekey_start = 0;
    keys = none;
    stats = record {
      packets_sent = 0;
      bytes_sent = 0;
      packets_received = 0;
      bytes_received = 0;
      packets_dropped = 0;
      rekeys = 0;
    };
    last_recv = 45;
    last_data_send = 0;
  };
  sent = [];
  delivered = [];
}

-- The state after a reaction, where there is one.
abbrev after : Option (Verdict × Server ℕ) → Server ℕ
after none = start
after (some (v, st)) = st

abbrev ready : Server ℕ
ready = after (handle env start (9 ∷ []))

finishes : handle env start (9 ∷ []) ≡ some (go_on, ready)
unfolding handle handshake3 admit allow_peer adopt set_client_key alloc scan hosts establish
    send_then_go_on encrypt_send encrypt_with seal transmit padding_for new_keys Framing.seal
    Framing.inner_plaintext clear assign_payload
finishes = refl

abbrev first_keys : Keys
first_keys = record (new_keys false clear clear) { send_seq = 1 }

ready-keys : ready.session.keys ≡ some first_keys
unfolding handle handshake3 admit allow_peer adopt set_client_key alloc scan hosts establish
    send_then_go_on encrypt_send encrypt_with seal transmit padding_for new_keys Framing.seal
    Framing.inner_plaintext clear assign_payload
ready-keys = refl

handle_authenticates_example : Authenticated env start (9 ∷ [])
handle_authenticates_example =
    handle_authenticates env start ready (9 ∷ []) go_on first_keys refl finishes ready-keys

-- The session in the state that the handshake leaves, written out.
abbrev live : Server ℕ
live = record start {
  mgr = record (start.mgr) {
    entry = λ r.
        if r == 0
        then record no_entry { sid = 1; running = true; client_key = some 77; ip = some (base + 2) }
        else no_entry;
  };
  session = record (start.session) { hs = none; keys = some first_keys };
}

abbrev packet : Bytes
packet = 0x45 ∷ 0 ∷ 0 ∷ 20 ∷ 0 ∷ 0 ∷ 0 ∷ 0 ∷ 64 ∷ 17 ∷ 0 ∷ 0 ∷ 10 ∷ 8 ∷ 0 ∷ 2 ∷ 1 ∷ 1 ∷ 1 ∷ 1 ∷ []

abbrev datagram : Bytes
datagram = replicate 28 0 ++ (1 ∷ 2 ∷ 3 ∷ 4 ∷ 4 ∷ 0 ∷ 0 ∷ 0 ∷ 0 ∷ 0 ∷ 20 ∷ packet)

takes : handle env live datagram ≡ some (go_on, after (handle env live datagram))
unfolding handle opened open_wire Framing.open_frame Framing.open_into Framing.parse_inner clear
    get_be new_replay_window check add new_keys dispatch handle_data from_source deliver Ippkt.parse
    rekey3
takes = refl

handle-delivered_example :
    ((after (handle env live datagram)).delivered ≡ [])
    ⊎ Delivered env live (after (handle env live datagram)) datagram
handle-delivered_example =
    handle-delivered env live (after (handle env live datagram)) datagram go_on takes

-- The packet did go to the TUN device.
reached : (after (handle env live datagram)).delivered ≡ packet ∷ []
unfolding handle opened open_wire Framing.open_frame Framing.open_into Framing.parse_inner clear
    get_be new_replay_window check add new_keys dispatch handle_data from_source deliver Ippkt.parse
    rekey3
reached = refl

too_short : open_wire first_keys (9 ∷ []) ≡ some (err short, first_keys)
unfolding open_wire Framing.open_frame Framing.open_into new_keys
too_short = refl

abbrev changing : Server ℕ
changing = record live {
  session = record (live.session) { rekeying = true; rekey_hs = some 2; rekey_start = 48 };
}

switches : rekey3 env changing [] ≡ some (switch_keys env changing ciphers)
unfolding rekey3 finish_rekey
switches = refl

rekey3-keys_example :
    ((switch_keys env changing ciphers).session.keys ≡ some first_keys)
    ⊎ Rekeyed env changing (switch_keys env changing ciphers) []
rekey3-keys_example = rekey3-keys env changing (switch_keys env changing ciphers) [] switches

goes_on : tick env changing ≡ some (true, changing)
unfolding tick encrypt_send encrypt_with
goes_on = refl

abbrev moment : Moment
moment = record {
  rng = env.rng;
  now = 50;
  nonce = env.nonce;
  random = env.random;
  sends = env.sends;
  writes = env.writes;
}

abbrev round : Manager → ServerInput → ServerRound
round mgr input = record {
  moment = moment;
  peer_ip = none;
  mgr = mgr;
  rate = λ key. none;
  decoy = [];
  input = input;
}

abbrev rounds : List ServerRound
rounds =
    round start.mgr (datagrams (9 ∷ []) [])
    ∷ round live.mgr (datagrams datagram (datagram ∷ []))
    ∷ round live.mgr cancelled
    ∷ []

abbrev lived : Option (Server ℕ)
lived = run_session env rounds start

abbrev server_of : Option (Server ℕ) → Server ℕ
server_of none = start
server_of (some st) = st

-- The second copy of the packet is dropped.
lives : (lived ≡ some (server_of lived)) × ((server_of lived).delivered ≡ packet ∷ [])
unfolding run_session server_turn drain_datagrams drain_recv handle handshake3 admit allow_peer
    adopt set_client_key alloc scan hosts establish send_then_go_on encrypt_send encrypt_with seal
    transmit padding_for new_keys Framing.seal Framing.inner_plaintext clear assign_payload opened
    dispatch handle_data from_source deliver Ippkt.parse open_wire Framing.open_frame
    Framing.open_into Framing.parse_inner get_be new_replay_window check add finish remove
lives = (refl, refl)

run_session-delivered_example : All (FromTunnel env.noise 1400) (server_of lived).delivered
run_session-delivered_example =
    run_session-delivered env rounds start (server_of lived) refl refl lives.0

tick-timeouts_example :
    ((has_keys env changing.session.keys ≡ true) ⊎ (50 - 45 ≤ 10))
    × (50 - 45 ≤ 100)
    × ((true ≡ false) ⊎ (50 - 48 ≤ 10))
tick-timeouts_example = tick-timeouts env changing changing goes_on
