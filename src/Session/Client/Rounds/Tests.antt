-- ===== src/Session/Client/Rounds/Tests.antt =====
-- A client that cannot dial at first, connects, and gets a packet.
use vibe_vpn.Base.{
  ℕ, ◌≡◌, refl, true, false, Option, none, some, List, [], ◌∷◌, ◌++◌, Bytes, All, pos, get_be,
  length, replicate, if◌then◌else◌, ◌==◌,
}
use vibe_vpn.Aead.Clear.{clear}
use vibe_vpn.Replay.{new_replay_window, check, add, shift_up}
use vibe_vpn.Wire.{msg_data, msg_assign}
use vibe_vpn.Framing
use vibe_vpn.Framing.Shaping.{padding_for}
use vibe_vpn.Session.Keys.{new_keys, open_wire, seal}
use vibe_vpn.Session.Noise.{Noise, Ciphers}
use vibe_vpn.Session.Client.{
  ClientEnv, is_ipv4, parse_assign, client_transmit, client_encrypt_with, client_encrypt_send,
  client_handle_data, maybe_rekey, client_dispatch, client_opened, handle_frame,
}
use vibe_vpn.Session.Client.Connect.{
  received, teardown, client_send_raw, wait_reply, assignment, wait_assign, assigned, settle,
  finish_handshake, replied, handshake, connect, Attempt,
}
use vibe_vpn.Session.Client.Run.{
  Turn, inside, frames, keepalive_due, cancel, send_keepalive, has_keys, send_close, handled,
  client_drain_recv, drain_frames, alive, keepalive_tick, shut_down, turn, first_connect,
  new_client, Moment, Round, turns, run_client,
}
use vibe_vpn.Session.Client.Life.{Carried, tunnel_of}
use vibe_vpn.Session.Client.Rounds.{run_client-delivered}

abbrev ciphers : Ciphers
ciphers = record { c2s = clear; s2c = clear }

abbrev toy : Noise ℕ
toy = record {
  new_server = none;
  new_client = some 0;
  read = λ h msg. if h == 1 then some ([], none, 2) else none;
  write = λ h text. if h == 0 then some (text, none, 1) else some (6 ∷ [], some ciphers, 3);
  peer_static = λ h. none;
}

abbrev moment : Moment
moment = record {
  rng = record { bytes = λ i. 0; used = 0 };
  now = 50;
  nonce = replicate 12 0;
  random = λ n. replicate n 0;
  sends = λ b. true;
  writes = λ b. true;
}

abbrev env : ClientEnv ℕ
env = record {
  noise = toy;
  mtu = 1400;
  rekey_after_packets = 0;
  rekey_after_time = 0;
  shaping = record {
    padding = "none";
    pad_to = pos 0;
    bucket = pos 0;
    rand_max = pos 0;
    decoy_interval = 0;
    jitter = 0;
  };
  rng = record { bytes = λ i. 0; used = 0 };
  now = 50;
  nonce = replicate 12 0;
  random = λ n. replicate n 0;
  sends = λ b. true;
  writes = λ b. true;
}

abbrev the_tag : Bytes
the_tag = 1 ∷ 2 ∷ 3 ∷ 4 ∷ []

abbrev wire : ℕ → ℕ → Bytes → Bytes
wire typ seq payload =
    replicate 28 0 ++ (the_tag ++ (typ ∷ 0 ∷ 0 ∷ 0 ∷ seq ∷ 0 ∷ length payload ∷ payload))

abbrev assign : Bytes
assign = wire msg_assign 0 (29 ∷ 10 ∷ 8 ∷ 0 ∷ 2 ∷ 10 ∷ 8 ∷ 0 ∷ 1 ∷ [])

abbrev packet : Bytes
packet = 0x45 ∷ 0 ∷ []

abbrev attempts : List Attempt
attempts =
    record { dials = false; tag = the_tag; events = [] }
    ∷ record { dials = true; tag = the_tag; events = received (5 ∷ []) ∷ received assign ∷ [] }
    ∷ []

abbrev rounds : List Round
rounds =
    record {
      moment = moment;
      attempts = [];
      decoy = [];
      input = frames (some (wire msg_data 1 packet)) (some (wire msg_data 1 packet) ∷ []);
    }
    ∷ record { moment = moment; attempts = []; decoy = []; input = keepalive_due }
    ∷ record { moment = moment; attempts = []; decoy = []; input = cancel }
    ∷ []

abbrev lived : Option (Turn ℕ)
lived = run_client env 100 moment attempts rounds (new_client none)

abbrev turn_of : Option (Turn ℕ) → Turn ℕ
turn_of none = inside (new_client none)
turn_of (some t) = t

-- The second copy of the packet is dropped.
lives :
    (lived ≡ some (turn_of lived))
    × ((tunnel_of toy 1400 (turn_of lived)).session.delivered ≡ packet ∷ [])
unfolding run_client turns first_connect turn drain_frames client_drain_recv handled handle_frame
    client_opened client_dispatch client_handle_data is_ipv4 connect handshake client_send_raw
    wait_reply wait_assign assignment assigned settle finish_handshake replied teardown new_keys
    parse_assign keepalive_tick alive send_keepalive maybe_rekey shut_down send_close has_keys
    client_encrypt_send client_encrypt_with client_transmit padding_for seal Framing.seal
    Framing.inner_plaintext clear open_wire Framing.open_frame Framing.open_into Framing.parse_inner
    get_be new_replay_window check add shift_up new_client
lives = (refl, refl)

run_client-delivered_example :
    All (Carried toy 1400) (tunnel_of toy 1400 (turn_of lived)).session.delivered
run_client-delivered_example =
    run_client-delivered env 100 moment attempts rounds none (turn_of lived) lives.0
