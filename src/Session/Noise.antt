-- ===== src/Session/Noise.antt =====
-- The Noise XK handshake of internal/crypto/handshake.go, which wraps flynn/noise: the states of a
-- handshake are a parameter `H`, and so are the operations on them. Nothing is assumed of them.
use vibe_vpn.Base.{ℕ, Option, Bytes}
use vibe_vpn.Aead.{Aead}

-- The two ciphers of a finished handshake (client to server, server to client), as the AEADs that
-- `aeadFrom` makes of them.
pub record Ciphers : Type 0 where
  pub c2s : Aead
  pub s2c : Aead

-- An error is `none`. `read` and `write` give the message, the ciphers if this was the last one,
-- and the state afterwards.
pub record Noise (H : Type 0) : Type 0 where
  pub new_server : Option H
  pub new_client : Option H
  pub read : H → Bytes → Option (Bytes × Option Ciphers × H)
  pub write : H → Bytes → Option (Bytes × Option Ciphers × H)
  pub peer_static : H → Option ℕ
