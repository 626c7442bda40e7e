-- ===== src/Session/Join.antt =====
-- A client and a server of the same handshake, message by message: `connect` of
-- internal/session/client.go against `handle` of internal/session/server.go.
pub mod Server
pub mod Client
pub mod Agree
mod Tests
use vibe_vpn.Base.{ℕ, ◌≡◌, ◌≤◌, ◌<◌, Option, none, some, [], length, Bytes}
use vibe_vpn.Wire.{max_payload}
use vibe_vpn.Session.Noise.{Noise, Ciphers}

-- Documented behaviour of a Noise XK handshake between two honest parties: each message is read as
-- it was written, the first one carries the tag in 52 bytes, the last one ends it on both sides
-- with the same two ciphers and tells the server the client's key.
pub record Run {H : Type 0} (client : Noise H) (server : Noise H) (tag : Bytes) (key : ℕ)
    (cs : Ciphers) : Type 0 where
  pub c0 : H
  pub c1 : H
  pub c2 : H
  pub c3 : H
  pub s0 : H
  pub s1 : H
  pub s2 : H
  pub s3 : H
  pub m1 : Bytes
  pub m2 : Bytes
  pub m3 : Bytes
  pub starts : (client.new_client ≡ some c0) × (server.new_server ≡ some s0)
  pub writes1 : client.write c0 tag ≡ some (m1, none, c1)
  pub reads1 : server.read s0 m1 ≡ some (tag, none, s1)
  pub writes2 : server.write s1 [] ≡ some (m2, none, s2)
  pub reads2 : client.read c1 m2 ≡ some ([], none, c2)
  pub writes3 : client.write c2 [] ≡ some (m3, some cs, c3)
  pub reads3 : server.read s2 m3 ≡ some ([], some cs, s3)
  pub who : server.peer_static s3 ≡ some key
  pub sizes :
      (length m1 ≡ 52)
      × (0 < length m2)
      × (length m2 ≤ max_payload)
      × (0 < length m3)
      × (length m3 ≤ max_payload)
