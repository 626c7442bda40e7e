-- ===== src/Startup/Tests.antt =====
-- Commands of which one part does not start, and a reload.
use vibe_vpn.Base.{
  ℕ, ◌≡◌, ◌≢◌, ◌↔◌, ◌+◌, ◌-◌, All, refl, Bool, true, false, Option, none, some, if◌then◌else◌, List,
  [], ◌∷◌, Bytes, AreBytes, ok, arith, replicate, pos, subst, Bool-cases, inl, inr,
}
use vibe_vpn.Aead.Clear.{are_bytes, are_bytes_iff}
use vibe_vpn.Crypto.{Primitives, ArePrimitives, colon, decode_key, encode_key}
use vibe_vpn.Session.Cookie.{bytes_eq, bytes_eq_sound}
use vibe_vpn.Session.Manager.{Manager, no_entry}
use vibe_vpn.Session.Manager.Adopt.{allow_peer}
use vibe_vpn.Startup.{
  Setting, forwarding, server_tun, masquerade, Part, tun, desync, raw, Wanted, run_server,
  run_client_command,
}
use vibe_vpn.Startup.Settings.{settings}
use vibe_vpn.Startup.Trace.{running, serves}
use vibe_vpn.Startup.Clean.{run_server_stops, run_client_command_leaks}
use vibe_vpn.Startup.Reload.{parse_peers, reload, Lists, DecodesToBytes, reload-allow_peer}

abbrev but_raw : Part → Bool
but_raw raw = false
but_raw p = true

abbrev but_tun : Part → Bool
but_tun tun = false
but_tun p = true

abbrev wanted : Wanted
wanted = record { has_ctl = true; has_metrics = false; debug = true; listens = (true, false, true) }

abbrev but_nat : Setting → Bool
but_nat masquerade = false
but_nat s = true

run_server_stops_example :
    (running [] (run_server but_raw but_nat true true true wanted) ≡ some [])
    × (settings (run_server but_raw but_nat true true true wanted) ≡ forwarding ∷ server_tun ∷ [])
    × (serves (run_server but_raw but_nat true true true wanted) ≡ false)
run_server_stops_example = run_server_stops but_raw but_nat true true true wanted

-- There is no TUN device, and nobody stops nfqws.
run_client_command_leaks_example :
    (running [] (run_client_command but_tun true true true true true wanted) ≡ some (desync ∷ []))
    × (serves (run_client_command but_tun true true true true true wanted) ≡ false)
run_client_command_leaks_example = run_client_command_leaks but_tun true true true true true wanted

-- Base64 that only moves the bytes away from the colon.
abbrev moved : Bytes → Bytes
moved [] = []
moved (c ∷ b) = (c + 100) ∷ moved b

abbrev moved_back : Bytes → Bytes
moved_back [] = []
moved_back (c ∷ b) = (c - 100) ∷ moved_back b

abbrev bytes_only : Bytes → Option Bytes
bytes_only b = if are_bytes b then some b else none

abbrev toy : Primitives
toy = record {
  base64 = moved;
  unbase64 = λ b. bytes_only (moved_back b);
  scrypt = λ passphrase salt. none;
  aead = λ key. none;
}

moved_back-moved : (b : Bytes) → moved_back (moved b) ≡ b
moved_back-moved [] = refl
moved_back-moved (c ∷ b) = ground (arith, moved_back-moved b)

moved_no_colon : (b : Bytes) → All (λ c. c ≢ colon) (moved b)
moved_no_colon [] = tt
moved_no_colon (c ∷ b) = (λ e. absurd (omega arith), moved_no_colon b)

bytes_only-some : (b : Bytes) → AreBytes b → bytes_only b ≡ some b
bytes_only-some b h = rw ((are_bytes_iff b).1 h)

toy-ArePrimitives : ArePrimitives toy
toy-ArePrimitives = record {
  decodes = λ b h. rw (moved_back-moved b) (bytes_only-some b h);
  no_colon = moved_no_colon;
  seals = λ key a e. absurd (ground arith);
  sealed = λ key a nonce text e h. absurd (ground arith);
}

toy-DecodesToBytes : DecodesToBytes toy
toy-DecodesToBytes s b e = elim (Bool-cases (are_bytes (moved_back s))) [
  | inr no_bytes ↦ absurd (ground arith)
  | inl all_bytes ↦
      let same : moved_back s ≡ b = ground arith in
      subst AreBytes same ((are_bytes_iff (moved_back s)).0 all_bytes)
]

abbrev key : Bytes
key = replicate 32 7

abbrev text : Bytes
text = encode_key toy key

abbrev number : Bytes → ℕ
number b = if bytes_eq b text then 1 else 0

numbers : (b : Bytes) → number b ≡ number text → b ≡ text
numbers b e = ground (arith, bytes_eq_sound b text)

abbrev listed : List Bytes
listed = text ∷ encode_key toy (replicate 32 8) ∷ []

parses : parse_peers toy listed ≡ ok listed
unfolding parse_peers decode_key are_bytes
parses = refl

key_bytes : are_bytes key ≡ true
unfolding are_bytes
key_bytes = refl

abbrev manager : Manager
manager = record {
  max_sessions = 1024;
  gw = 1;
  prefix = 29;
  by_id = [];
  by_ip = λ ip. none;
  by_static = λ k. none;
  next_id = 0;
  pool = record { network = record { ip = 0; ones = 29 }; gateway_ip = 1; used = λ ip. false };
  peers = [];
  stats = record { sessions = pos 0; sessions_total = 0; dropped = 0; handshakes = 0 };
  entry = λ r. no_entry;
  next_ref = 0;
}

reload-allow_peer_example :
    (allow_peer (reload toy number (some (some listed)) manager) (number text) ≡ true)
    ↔ Lists toy key listed
reload-allow_peer_example =
    reload-allow_peer toy toy-ArePrimitives toy-DecodesToBytes number key numbers
      ((are_bytes_iff key).0 key_bytes) manager text (encode_key toy (replicate 32 8) ∷ []) listed
      parses
