-- ===== src/Session/Jitter/Tests.antt =====
-- A first message over a UDP transport, with and without the wrapper.
use vibe_vpn.Base.{
  ℕ, ◌+◌, ◌*◌, ◌^◌, ◌≡◌, true, false, Option, none, some, [], ◌∷◌, ◌++◌, Bytes, pos, take,
  if◌then◌else◌, ◌==◌, replicate, arith,
}
use vibe_vpn.Aead.Clear.{clear}
use vibe_vpn.Session.Noise.{Ciphers}
use vibe_vpn.Session.Manager.{no_entry}
use vibe_vpn.Session.Server.{Env, Server, noise1, gate}
use vibe_vpn.Session.Jitter.{Transport, jitter, over, gate-jitter}

abbrev ciphers : Ciphers
ciphers = record { c2s = clear; s2c = clear }

abbrev toy_read : ℕ → Bytes → Option (Bytes × Option Ciphers × ℕ)
toy_read h msg = if h == 2 then some ([], some ciphers, 3) else some (take 4 msg, none, 1)

abbrev env : Env ℕ
env = record {
  noise = record {
    new_server = some 0;
    new_client = some 0;
    read = toy_read;
    write = λ h text. some (5 ∷ [], none, 2);
    peer_static = λ h. some 77;
  };
  mac = λ key text. key ++ text;
  secret = [];
  mtu = 1400;
  session_timeout = 100;
  handshake_timeout = 10;
  shaping = record {
    padding = "none";
    pad_to = pos 0;
    bucket = pos 0;
    rand_max = pos 0;
    decoy_interval = 0;
    jitter = 0;
  };
  rng = record { bytes = λ i. 0; used = 0 };
  now = 50;
  nonce = replicate 12 0;
  random = λ n. replicate n 0;
  peer_ip = none;
  sends = λ b. true;
  writes = λ b. true;
}

abbrev base : ℕ
base = 10 * 2 ^ 24 + 8 * 2 ^ 16

abbrev start : Server ℕ
start = record {
  mgr = record {
    max_sessions = 1024;
    gw = base + 1;
    prefix = 29;
    by_id = (1, 0) ∷ [];
    by_ip = λ ip. none;
    by_static = λ key. none;
    next_id = 1;
    pool = record {
      network = record { ip = base; ones = 29 };
      gateway_ip = base + 1;
      used = λ ip. false;
    };
    peers = 77 ∷ [];
    stats = record { sessions = pos 1; sessions_total = 1; dropped = 0; handshakes = 0 };
    entry = λ r. if r == 0 then record no_entry { sid = 1; running = true } else no_entry;
    next_ref = 1;
  };
  rate = λ key. none;
  session = record {
    self = 0;
    created = 45;
    hs = none;
    tag = 1 ∷ 2 ∷ 3 ∷ 4 ∷ [];
    rekey_hs = none;
    rekeying = false;
    rekey_start = 0;
    keys = none;
    stats = record {
      packets_sent = 0;
      bytes_sent = 0;
      packets_received = 0;
      bytes_received = 0;
      packets_dropped = 0;
      rekeys = 0;
    };
    last_recv = 45;
    last_data_send = 0;
  };
  sent = [];
  delivered = [];
}

abbrev endpoint : Transport
endpoint = record {
  send = λ b. true;
  remote_addr = some (some (1, 10 ∷ 0 ∷ 0 ∷ 1 ∷ []));
  releases = true;
}

-- A cookie of no bytes is taken.
gate-jitter_example :
    (gate (over env (jitter endpoint (pos 3))) start (replicate 52 0) (some [])
      ≡ noise1 (over env (jitter endpoint (pos 3))) start (replicate 52 0))
    × ((gate (over env (jitter endpoint (pos 3))) start (replicate 52 0) (some [])).1.rate
        ≡ start.rate)
gate-jitter_example =
    gate-jitter env endpoint (pos 3) start (replicate 52 0) (some []) (omega arith)
