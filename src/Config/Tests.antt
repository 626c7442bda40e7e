-- ===== src/Config/Tests.antt =====
-- A client's configuration without anything but its server and its keys.
use vibe_vpn.Base.{◌≡◌, refl, true, none, pos}
use vibe_vpn.Config.{
  Checks, ClientConfig, client_defaults, validate_client, validate_tail, validate_transport,
  validate_metrics, validate_shaping, client_tls,
}

abbrev checks : Checks
checks = record {
  is_host_port = λ s. true;
  is_cidr = λ s. true;
  is_loopback = λ s. true;
  is_file = λ s. true;
}

abbrev bare : ClientConfig
bare = record {
  common = record {
    transport = "";
    private_key = "a";
    private_key_encrypted = "";
    mtu = pos 0;
    keepalive = pos 0;
    session_timeout = pos 0;
    metrics = "";
    shaping = record { padding = ""; pad_to = pos 0; bucket = pos 0; rand_max = pos 0 };
    stats_interval = pos 0;
  };
  server = "vpn:4433";
  server_public_key = "b";
  rekey_after_packets = 0;
  rekey_after_seconds = pos 0;
  raw_server = "";
  tls = none;
}

valid : validate_client checks (client_defaults bare) ≡ none
unfolding validate_client client_defaults validate_tail validate_transport validate_metrics
    validate_shaping client_tls
valid = refl
