-- ===== src/Dial/Tests.antt =====
-- A client with a TLS transport that is blocked and a raw one.
use vibe_vpn.Base.{ℕ, ◌≡◌, refl, true, false, Option, none, some, List, [], ◌∷◌, All, pos}
use vibe_vpn.Config.{ClientConfig}
use vibe_vpn.Dial.{
  Files, Dialer, tls, raw, udp, client_dial, tls_dialers, tls_dialer, verified_dialer, tls_roots,
  tls_name, raw_dialers, udp_dialers, client_dial-IsVerified, IsVerified,
}

abbrev files : Files
files = record { loads = λ s. true; split_host = λ s. some "vpn" }

abbrev two_transports : ClientConfig
two_transports = record {
  common = record {
    transport = "tls";
    private_key = "a";
    private_key_encrypted = "";
    mtu = pos 1280;
    keepalive = pos 20;
    session_timeout = pos 300;
    metrics = "";
    shaping = record { padding = ""; pad_to = pos 0; bucket = pos 0; rand_max = pos 0 };
    stats_interval = pos 0;
  };
  server = "vpn:443";
  server_public_key = "b";
  rekey_after_packets = 0;
  rekey_after_seconds = pos 0;
  raw_server = "vpn:4444";
  tls = some (record { server_name = ""; fingerprint = ""; ca = "ca.crt"; insecure = true });
}

abbrev with_ca : Dialer
with_ca = tls (record {
  addr = "vpn:443";
  server_name = "vpn";
  roots = some "ca.crt";
  insecure = false;
  fingerprint = "chrome";
})

abbrev transports : List Dialer
transports = with_ca ∷ raw "vpn:4444" ∷ []

dials : client_dial files two_transports ≡ some transports
unfolding client_dial tls_dialers tls_dialer verified_dialer tls_roots tls_name raw_dialers
    udp_dialers
dials = refl

client_dial-IsVerified_example : All (IsVerified two_transports.tls) transports
client_dial-IsVerified_example = client_dial-IsVerified files two_transports transports dials

abbrev reaches : Dialer → Option ℕ
reaches (tls d) = none
reaches (raw addr) = some 7
reaches (udp addr) = some 8
