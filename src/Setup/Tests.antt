-- ===== src/Setup/Tests.antt =====
-- A server and a client that are set up with a domain.
use vibe_vpn.Base.{◌≡◌, refl, true, some}
use vibe_vpn.Config.{Checks, ClientConfig, ServerConfig}
use vibe_vpn.Setup.{Made, setup_server_dir, setup_client_dir, server_config, client_config}

abbrev checks : Checks
checks = record {
  is_host_port = λ s. true;
  is_cidr = λ s. true;
  is_loopback = λ s. true;
  is_file = λ s. true;
}

abbrev made : Made
made = record { private_key = "k"; cert = "/etc/server.crt"; cert_key = "/etc/server.key.pem" }

abbrev server : ServerConfig
server = server_config made "0.0.0.0:443" "0.0.0.0:4433" "" "10.77.0.0/24" "vpn0"

generates :
    setup_server_dir (some made) "vpn" "0.0.0.0:443" "0.0.0.0:4433" "" "10.77.0.0/24" "vpn0"
    ≡ some server
unfolding setup_server_dir
generates = refl

abbrev client : ClientConfig
client = client_config made "vpn:443" ("vpn", "p") ""

generates_client :
    setup_client_dir (some made) "vpn:443" "peer" (some ("vpn", "p")) "" ≡ some client
unfolding setup_client_dir
generates_client = refl
