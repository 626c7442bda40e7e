-- ===== src/Session/Client/Tests.antt =====
-- A client in a session, and one whose rekey fails.
use vibe_vpn.Base.{
  ℕ, ◌*◌, ◌^◌, ◌≡◌, ◌⊎◌, refl, arith, true, false, Option, none, some, [], ◌∷◌, ◌++◌, Bytes, pos,
  get_be, replicate,
}
use vibe_vpn.Aead.Clear.{clear}
use vibe_vpn.Replay.{new_replay_window, check}
use vibe_vpn.Framing
use vibe_vpn.Session.Keys.{new_keys, open_wire}
use vibe_vpn.Session.Client.{
  ClientEnv, Client, Reply, fine, rekey_failed, is_ipv4, client_handle_data, continue_rekey,
  client_dispatch, client_opened, handle_frame, rekey2,
}
use vibe_vpn.Session.Client.Safety.{ClientDelivered, handle_frame-delivered}
use vibe_vpn.Session.Client.Connect.{Tunnel}
use vibe_vpn.Session.Client.Run.{next, drain_packets, keepalive_tick, new_client}
use vibe_vpn.Session.Client.Stuck.{dropped, continue_rekey_stuck}

abbrev base : ℕ
base = 10 * 2 ^ 24

-- A handshake that reads nothing.
abbrev env : ClientEnv ℕ
env = record {
  noise = record {
    new_server = none;
    new_client = none;
    read = λ h msg. none;
    write = λ h text. none;
    peer_static = λ h. none;
  };
  mtu = 1400;
  rekey_after_packets = 0;
  rekey_after_time = 0;
  shaping = record {
    padding = "none";
    pad_to = pos 0;
    bucket = pos 0;
    rand_max = pos 0;
    decoy_interval = 0;
    jitter = 0;
  };
  rng = record { bytes = λ i. 0; used = 0 };
  now = 50;
  nonce = replicate 12 0;
  random = λ n. replicate n 0;
  sends = λ b. true;
  writes = λ b. true;
}

abbrev client : Client ℕ
client = record {
  keys = some (new_keys true clear clear);
  tag = 1 ∷ 2 ∷ 3 ∷ 4 ∷ [];
  last_rekey = 0;
  rekeying = false;
  rekey_hs = none;
  stats = record {
    packets_sent = 0;
    bytes_sent = 0;
    packets_received = 0;
    bytes_received = 0;
    packets_dropped = 0;
    rekeys = 0;
  };
  last_data_send = 0;
  sent = [];
  delivered = [];
}

abbrev datagram : Bytes
datagram = replicate 28 0 ++ (1 ∷ 2 ∷ 3 ∷ 4 ∷ 4 ∷ 0 ∷ 0 ∷ 0 ∷ 0 ∷ 0 ∷ 1 ∷ 0x45 ∷ [])

abbrev after : Option (Reply × Client ℕ) → Client ℕ
after none = client
after (some (r, c)) = c

takes : handle_frame env client datagram ≡ some (fine, after (handle_frame env client datagram))
unfolding handle_frame client_opened client_dispatch client_handle_data is_ipv4 open_wire
    Framing.open_frame Framing.open_into Framing.parse_inner clear get_be new_replay_window check
    new_keys rekey2
takes = refl

handle_frame-delivered_example :
    ((after (handle_frame env client datagram)).delivered ≡ [])
    ⊎ ClientDelivered env client (after (handle_frame env client datagram)) datagram
handle_frame-delivered_example =
    handle_frame-delivered env client (after (handle_frame env client datagram)) datagram fine takes

abbrev changing : Client ℕ
changing = record client { rekeying = true; rekey_hs = some 0 }

fails : continue_rekey env changing 0 [] ≡ some (rekey_failed, changing)
unfolding continue_rekey
fails = refl

abbrev tunnel : Tunnel ℕ
tunnel = record (new_client none) { session = changing; connected = true; last_recv = 40 }

continue_rekey_stuck_example :
    (true ≡ true)
    × (drain_packets env changing ((0x45 ∷ []) ∷ (0x45 ∷ []) ∷ []) ≡ some (dropped 2 changing))
    × (keepalive_tick env 100 [] tunnel ≡ some (next tunnel))
continue_rekey_stuck_example =
    continue_rekey_stuck env changing changing 0 [] ((0x45 ∷ []) ∷ (0x45 ∷ []) ∷ []) 100 [] tunnel
      refl fails refl (omega arith)
