-- ===== src/Setup.antt =====
-- `setupServerDir`, `setupClientDir` and `runClient`'s and `runServer`'s use of them, of
-- cmd/vpn/setup.go, cmd/vpn/client.go and cmd/vpn/server.go: the configurations that they
-- generate. The control socket and the shaping fields that the configuration's model leaves out
-- are left out here; reading the file back gives what was written.
mod Tests
pub mod Peer
use Prim.Native.String.{String}
use text.Mathlib.Text.{◌==◌ as str_eq}
use vibe_vpn.Base.{
  ℕ, ◌+◌, ◌^◌, ◌*◌, ◌≡◌, refl, Bool, true, false, not, ◌&&◌, ◌||◌, Option, none, some,
  if◌then◌else◌, pos, arith, Bool-cases, inl, inr,
}
use vibe_vpn.Base.Panic.{◌>>=◌}
use vibe_vpn.Config.{
  Checks, ClientConfig, ServerConfig, default_mtu, default_session_timeout, client_defaults,
  server_defaults, validate_client, validate_server, validate_tail, validate_transport,
  validate_metrics, validate_shaping, client_tls, server_tls, raw_listener,
}

-- The texts that the setup makes: the private key, and the paths of the certificate and its key
-- (of the CA, for a client).
pub record Made : Type 0 where
  pub private_key : String
  pub cert : String
  pub cert_key : String

-- The structs that the two functions fill in.
abbrev pub server_config : Made → String → String → String → String → String → ServerConfig
server_config m tls_listen listen raw_listen subnet iface = record {
  common = record {
    transport = "";
    private_key = m.private_key;
    private_key_encrypted = "";
    mtu = pos default_mtu;
    keepalive = pos 10;
    session_timeout = pos default_session_timeout;
    metrics = "";
    shaping = record { padding = "bucket"; pad_to = pos 0; bucket = pos 128; rand_max = pos 0 };
    stats_interval = pos 0;
  };
  listen = listen;
  interface = iface;
  subnet = subnet;
  outbound_interface = "eth0";
  max_sessions = pos 1024;
  tls = some (record { listen = tls_listen; cert = m.cert; key = m.cert_key });
  raw = if str_eq raw_listen "" then none else some raw_listen;
}

abbrev pub client_config : Made → String → String × String → String → ClientConfig
client_config m server p raw_server = record {
  common = record {
    transport = "";
    private_key = m.private_key;
    private_key_encrypted = "";
    mtu = pos default_mtu;
    keepalive = pos 10;
    session_timeout = pos default_session_timeout;
    metrics = "";
    shaping = record { padding = "web"; pad_to = pos 0; bucket = pos 0; rand_max = pos 0 };
    stats_interval = pos 0;
  };
  server = server;
  server_public_key = p.1;
  rekey_after_packets = 1 * 2 ^ 28;
  rekey_after_seconds = pos 180;
  raw_server = raw_server;
  tls = some (record { server_name = p.0; fingerprint = ""; ca = m.cert; insecure = false });
}

-- `made` is none where a directory, a key, the certificate or a file cannot be made.
unfoldable pub setup_server_dir :
    Option Made → String → String → String → String → String → String → Option ServerConfig
setup_server_dir made domain tls_listen listen raw_listen subnet iface =
    if str_eq domain ""
    then none
    else (made >>= λ m. some (server_config m tls_listen listen raw_listen subnet iface))

-- `peer` is what `readPeer` gives: the domain and the server's public key.
unfoldable pub setup_client_dir :
    Option Made → String → String → Option (String × String) → String → Option ClientConfig
setup_client_dir made server peer_dir peer raw_server =
    if str_eq server ""
    then none
    else if str_eq peer_dir ""
    then none
    else (peer >>= λ p. made >>= λ m. some (client_config m server p raw_server))

module _ (checks : Checks) where
  server_config_valid :
      (m : Made) (tls_listen listen raw_listen subnet iface : String)
      → str_eq m.private_key "" ≡ false
      → checks.is_cidr (if str_eq subnet "" then "10.77.0.0/24" else subnet) ≡ true
      → (str_eq tls_listen "" ≡ false) × (str_eq m.cert "" ≡ false) × (str_eq m.cert_key "" ≡ false)
      → (checks.is_file m.cert ≡ true) × (checks.is_file m.cert_key ≡ true)
      → validate_server checks
          (server_defaults (server_config m tls_listen listen raw_listen subnet iface))
        ≡ none
  unfolding validate_server server_defaults validate_tail validate_transport validate_metrics
      validate_shaping server_tls raw_listener
  server_config_valid m tls_listen listen raw_listen subnet iface key cidr paths files =
      elim (Bool-cases (str_eq raw_listen "")) [ inl r ↦ ground arith | inr r ↦ ground arith ]

  -- The configuration that the setup of a server generates passes the validation at the start,
  -- where the private key is not empty, the subnet is a CIDR, the TLS address is not empty, and
  -- the certificate and its key are the files that the setup wrote.
  pub validate_server-setup_server_dir :
      (m : Made) (domain tls_listen listen raw_listen subnet iface : String) (s : ServerConfig)
      → setup_server_dir (some m) domain tls_listen listen raw_listen subnet iface ≡ some s
      → str_eq m.private_key "" ≡ false
      → checks.is_cidr (if str_eq subnet "" then "10.77.0.0/24" else subnet) ≡ true
      → (str_eq tls_listen "" ≡ false) × (str_eq m.cert "" ≡ false) × (str_eq m.cert_key "" ≡ false)
      → (checks.is_file m.cert ≡ true) × (checks.is_file m.cert_key ≡ true)
      → validate_server checks (server_defaults s) ≡ none
  unfolding setup_server_dir
  validate_server-setup_server_dir m domain tls_listen listen raw_listen subnet iface s e key cidr
        paths files =
      let same : server_config m tls_listen listen raw_listen subnet iface ≡ s = ground arith in
      rw (← same)
        (server_config_valid m tls_listen listen raw_listen subnet iface key cidr paths files)

  -- What the checks of the addresses say of a client's configuration.
  abbrev pub Reachable : String → String → Type 0
  Reachable server raw_server =
      (checks.is_host_port server ≡ true)
      × ((str_eq raw_server "" || checks.is_host_port raw_server) ≡ true)

  client_config_valid :
      (m : Made) (server raw_server : String) (p : String × String)
      → str_eq server "" ≡ false
      → str_eq m.private_key "" ≡ false
      → str_eq p.1 "" ≡ false
      → (str_eq m.cert "" ≡ false) × (checks.is_file m.cert ≡ true)
      → let v = validate_client checks (client_defaults (client_config m server p raw_server)) in
        ((v ≡ none) → Reachable server raw_server) × (Reachable server raw_server → v ≡ none)
  unfolding validate_client client_defaults validate_tail validate_transport validate_metrics
      validate_shaping client_tls
  client_config_valid m server raw_server p named key pub_key ca =
      (λ v. (ground arith, ground arith), λ r. ground arith)

  -- The configuration that the setup of a client generates passes the validation at the start if
  -- the server's address is host:port, the raw one too or empty, both keys are not empty, and the
  -- CA is a file; and only if the server's address is host:port and the raw one is so or empty.
  pub validate_client-setup_client_dir :
      (m : Made) (server peer_dir raw_server : String) (p : String × String) (c : ClientConfig)
      → setup_client_dir (some m) server peer_dir (some p) raw_server ≡ some c
      → str_eq m.private_key "" ≡ false
      → str_eq p.1 "" ≡ false
      → (str_eq m.cert "" ≡ false) × (checks.is_file m.cert ≡ true)
      → ((validate_client checks (client_defaults c) ≡ none) → Reachable server raw_server)
        × (Reachable server raw_server → validate_client checks (client_defaults c) ≡ none)
  unfolding setup_client_dir
  validate_client-setup_client_dir m server peer_dir raw_server p c e key pub_key ca =
      let same : client_config m server p raw_server ≡ c = ground arith in
      rw (← same) (client_config_valid m server raw_server p (ground arith) key pub_key ca)
