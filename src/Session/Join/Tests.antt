-- ===== src/Session/Join/Tests.antt =====
-- A client and a server over a toy handshake: 0, 1, 2 and 3 are the server's states, 10 to 13 the
-- client's.
use vibe_vpn.Base.{
  ℕ, ◌+◌, ◌*◌, ◌^◌, ◌≡◌, ◌≤◌, ◌<◌, refl, true, false, Option, none, some, List, [], ◌∷◌, ◌++◌,
  Bytes, AreBytes, Result, ok, arith, pos, get_be, take, if◌then◌else◌, ◌==◌, replicate,
}
use vibe_vpn.Aead.Clear.{clear, clear-IsAead, are_bytes, are_bytes_iff}
use vibe_vpn.Replay.{new_replay_window, check, add}
use vibe_vpn.Framing
use vibe_vpn.Framing.Shaping.{Shaping, padding_for}
use vibe_vpn.Session.Pool.{scan, hosts, alloc}
use vibe_vpn.Session.Keys.{Keys, new_keys, open_wire, seal}
use vibe_vpn.Session.Noise.{Noise, Ciphers}
use vibe_vpn.Session.Manager.{Manager, Error, no_entry}
use vibe_vpn.Session.Manager.Adopt.{adopt, allow_peer, set_client_key}
use vibe_vpn.Session.Server.{Env, Server, go_on, assign_payload}
use vibe_vpn.Session.Server.Handle.{handle}
use vibe_vpn.Session.Client.{ClientEnv, parse_assign}
use vibe_vpn.Session.Client.Connect.{
  Event, received, timed_out, Tunnel, ended, connect, teardown, client_send_raw, wait_reply,
  assignment, wait_assign, assigned, settle, finish_handshake, replied, handshake, Attempt, retry,
  reconnect,
}
use vibe_vpn.Session.Client.Connected.{Joined, connect-Joined}
use vibe_vpn.Wire.{msg_assign}
use vibe_vpn.Session.Join.{Run}
use vibe_vpn.Session.Join.Server.{after1, after3, assign_pad, assign_frame}
use vibe_vpn.Session.Join.Client.{joined}
use vibe_vpn.Session.Join.Agree.{client_keys, connect-handle}

abbrev ciphers : Ciphers
ciphers = record { c2s = clear; s2c = clear }

abbrev toy_read : ℕ → Bytes → Option (Bytes × Option Ciphers × ℕ)
toy_read h msg =
    if h == 11
    then some ([], none, 12)
    else if h == 2
    then some ([], some ciphers, 3)
    else some (take 4 msg, none, 1)

abbrev toy_write : ℕ → Bytes → Option (Bytes × Option Ciphers × ℕ)
toy_write h text =
    if h == 10
    then some (text ++ replicate 48 0, none, 11)
    else if h == 12
    then some (6 ∷ [], some ciphers, 13)
    else some (5 ∷ [], none, 2)

abbrev toy : Noise ℕ
toy = record {
  new_server = some 0;
  new_client = some 10;
  read = toy_read;
  write = toy_write;
  peer_static = λ h. some 77;
}

abbrev unshaped : Shaping
unshaped = record {
  padding = "none";
  pad_to = pos 0;
  bucket = pos 0;
  rand_max = pos 0;
  decoy_interval = 0;
  jitter = 0;
}

abbrev server_env : Env ℕ
server_env = record {
  noise = toy;
  mac = λ key text. key ++ text;
  secret = [];
  mtu = 1400;
  session_timeout = 100;
  handshake_timeout = 10;
  shaping = unshaped;
  rng = record { bytes = λ i. 0; used = 0 };
  now = 50;
  nonce = replicate 12 0;
  random = λ n. replicate n 0;
  peer_ip = none;
  sends = λ b. true;
  writes = λ b. true;
}

abbrev client_env : ClientEnv ℕ
client_env = record {
  noise = toy;
  mtu = 1400;
  rekey_after_packets = 0;
  rekey_after_time = 0;
  shaping = unshaped;
  rng = record { bytes = λ i. 0; used = 0 };
  now = 50;
  nonce = replicate 12 0;
  random = λ n. replicate n 0;
  sends = λ b. true;
  writes = λ b. true;
}

abbrev the_tag : Bytes
the_tag = 1 ∷ 2 ∷ 3 ∷ 4 ∷ []

abbrev run : Run toy toy the_tag 77 ciphers
run = record {
  c0 = 10;
  c1 = 11;
  c2 = 12;
  c3 = 13;
  s0 = 0;
  s1 = 1;
  s2 = 2;
  s3 = 3;
  m1 = the_tag ++ replicate 48 0;
  m2 = 5 ∷ [];
  m3 = 6 ∷ [];
  starts = (refl, refl);
  writes1 = refl;
  reads1 = refl;
  writes2 = refl;
  reads2 = refl;
  writes3 = refl;
  reads3 = refl;
  who = refl;
  sizes = (refl, omega arith, omega arith, omega arith, omega arith);
}

abbrev base : ℕ
base = 10 * 2 ^ 24 + 8 * 2 ^ 16

abbrev begun : Server ℕ
begun = record {
  mgr = record {
    max_sessions = 1024;
    gw = base + 1;
    prefix = 29;
    by_id = (1, 0) ∷ [];
    by_ip = λ ip. none;
    by_static = λ key. none;
    next_id = 1;
    pool = record {
      network = record { ip = base; ones = 29 };
      gateway_ip = base + 1;
      used = λ ip. false;
    };
    peers = 77 ∷ [];
    stats = record { sessions = pos 1; sessions_total = 1; dropped = 0; handshakes = 0 };
    entry = λ r. if r == 0 then record no_entry { sid = 1; running = true } else no_entry;
    next_ref = 1;
  };
  rate = λ key. none;
  session = record {
    self = 0;
    created = 45;
    hs = none;
    tag = [];
    rekey_hs = none;
    rekeying = false;
    rekey_start = 0;
    keys = none;
    stats = record {
      packets_sent = 0;
      bytes_sent = 0;
      packets_received = 0;
      bytes_received = 0;
      packets_dropped = 0;
      rekeys = 0;
    };
    last_recv = 45;
    last_data_send = 0;
  };
  sent = [];
  delivered = [];
}

abbrev unconnected : Tunnel ℕ
unconnected = record {
  session = record {
    keys = none;
    tag = [];
    last_rekey = 0;
    rekeying = false;
    rekey_hs = none;
    stats = record {
      packets_sent = 0;
      bytes_sent = 0;
      packets_received = 0;
      bytes_received = 0;
      packets_dropped = 0;
      rekeys = 0;
    };
    last_data_send = 0;
    sent = [];
    delivered = [];
  };
  ip = none;
  gw = none;
  prefix = 0;
  requested_ip = none;
  connected = false;
  has_transport = false;
  last_recv = 0;
  handshakes = 0;
  reconnects = 0;
}

-- The value of a computation that has one.
abbrev manager_of : Option (Result Error Manager) → Manager
manager_of (some (ok m)) = m
manager_of r = begun.mgr

abbrev frame_of : Option (Bytes × ℕ × Keys) → Bytes × ℕ × Keys
frame_of none = ([], 0, new_keys true clear clear)
frame_of (some f) = f

abbrev named : Manager
named = set_client_key begun.mgr 0 77

abbrev mgr : Manager
mgr = manager_of (adopt named 0 77)

adopted : adopt named 0 77 ≡ some (ok mgr)
unfolding set_client_key adopt alloc scan hosts
adopted = refl

allowed : allow_peer named 77 ≡ true
unfolding set_client_key allow_peer
allowed = refl

addressed : ((mgr.entry 0).ip ≡ some (base + 2)) × (mgr.gw ≡ base + 1) × (mgr.prefix ≡ 29)
unfolding set_client_key adopt alloc scan hosts
addressed = (refl, refl, refl)

bounded : (mgr.prefix ≤ 32) × (base + 2 < 2 ^ 32) × (mgr.gw < 2 ^ 32)
unfolding set_client_key adopt alloc scan hosts
bounded = (omega arith, omega arith, omega arith)

abbrev begun1 : Server ℕ
begun1 = after1 client_env server_env the_tag 77 ciphers run refl (λ b. refl) (λ b. refl) begun

abbrev framed : Option (Bytes × ℕ × Keys)
framed =
    assign_frame client_env server_env the_tag 77 ciphers run refl (λ b. refl) (λ b. refl) begun1
      mgr

assigns : framed ≡ some (frame_of framed)
unfolding set_client_key adopt alloc scan hosts seal new_keys padding_for assign_payload
    Framing.seal Framing.inner_plaintext clear
assigns = refl

abbrev tunnel : ℕ → Tunnel ℕ
tunnel seq =
    joined client_env server_env the_tag 77 ciphers run refl (λ b. refl) (λ b. refl) unconnected
      (client_keys client_env server_env the_tag 77 ciphers run refl (λ b. refl) (λ b. refl) seq)
      (mgr.prefix, base + 2, mgr.gw)

abbrev after_assign : Server ℕ
after_assign =
    after3 client_env server_env the_tag 77 ciphers run refl (λ b. refl) (λ b. refl) begun1 mgr
      (frame_of framed).2 (frame_of framed).0

abbrev its_keys : Keys
its_keys =
    client_keys client_env server_env the_tag 77 ciphers run refl (λ b. refl) (λ b. refl)
      (frame_of framed).1

abbrev assigned_bytes : Bytes
assigned_bytes =
    the_tag
    ++ (msg_assign
        ∷ (assign_payload mgr.prefix (some (base + 2)) mgr.gw
            ++ server_env.random (
                assign_pad client_env server_env the_tag 77 ciphers run refl (λ b. refl) (λ b. refl)
                  begun1 mgr)))

assigned_in_range : AreBytes assigned_bytes
unfolding set_client_key adopt alloc scan hosts padding_for assign_payload are_bytes
assigned_in_range = (are_bytes_iff assigned_bytes).0 refl

connect-handle_example :
    (handle server_env begun run.m1 ≡ some (go_on, begun1))
    × (handle server_env begun1 run.m3 ≡ some (go_on, after_assign))
    × (connect client_env true unconnected the_tag
          (received run.m2 ∷ received (frame_of framed).0 ∷ [])
        ≡ some (ended true (tunnel (frame_of framed).1)))
    × (its_keys.send_aead ≡ (frame_of framed).2.recv_aead)
    × (its_keys.recv_aead ≡ (frame_of framed).2.send_aead)
connect-handle_example =
    connect-handle client_env server_env the_tag 77 ciphers run refl (λ b. refl) (λ b. refl) begun
      unconnected mgr (base + 2) (frame_of framed).0 (frame_of framed).1 (frame_of framed).2 refl
      refl refl refl allowed adopted addressed.0 bounded clear-IsAead refl assigned_in_range assigns

-- The client's part alone: what it got, and what it became.
abbrev seen : List Event
seen = received run.m2 ∷ received (frame_of framed).0 ∷ []

abbrev the_tunnel : Tunnel ℕ
the_tunnel = tunnel (frame_of framed).1

connects : connect client_env true unconnected the_tag seen ≡ some (ended true the_tunnel)
connects =
    (connect-handle client_env server_env the_tag 77 ciphers run refl (λ b. refl) (λ b. refl) begun
      unconnected mgr (base + 2) (frame_of framed).0 (frame_of framed).1 (frame_of framed).2 refl
      refl refl refl allowed adopted addressed.0 bounded clear-IsAead refl assigned_in_range
      assigns).2

connect-Joined_example : Joined client_env the_tag the_tunnel
connect-Joined_example = connect-Joined client_env true unconnected the_tunnel the_tag seen connects

-- A server that does not answer.
abbrev unanswered : Tunnel ℕ
unanswered = record unconnected {
  has_transport = true;
  session = record (unconnected.session) { sent = run.m1 ∷ [] };
}

times_out :
    connect client_env true unconnected the_tag (timed_out ∷ []) ≡ some (ended false unanswered)
unfolding connect handshake client_send_raw wait_reply replied teardown
times_out = refl

-- A round that cannot dial, and one that connects.
abbrev rounds : List Attempt
rounds =
    record { dials = false; tag = the_tag; events = [] }
    ∷ record { dials = true; tag = the_tag; events = seen }
    ∷ []

abbrev again : Tunnel ℕ
again = record the_tunnel { reconnects = 2; last_recv = 50 }

reconnects : reconnect client_env rounds unconnected ≡ some (ended true again)
unfolding reconnect retry connect handshake client_send_raw wait_reply wait_assign assignment
    assigned settle finish_handshake replied teardown set_client_key adopt alloc scan hosts seal
    new_keys padding_for assign_payload parse_assign Framing.seal Framing.inner_plaintext clear
    open_wire Framing.open_frame Framing.open_into Framing.parse_inner get_be new_replay_window
    check add
reconnects = refl
