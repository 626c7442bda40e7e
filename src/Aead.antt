-- ===== src/Aead.antt =====
-- crypto/cipher.AEAD under one key, which the repository calls and does not implement
-- (ChaCha20-Poly1305 from golang.org/x/crypto): the operations, and what the code relies on.
pub mod Clear
use vibe_vpn.Base.{ℕ, ◌+◌, ◌≡◌, Option, some, Bytes, AreBytes, length}

-- A nonce comes before the text. The associated data is always empty here.
pub record Aead : Type 0 where
  pub seal : Bytes → Bytes → Bytes
  pub unseal : Bytes → Bytes → Option Bytes

-- Documented behaviour: what was sealed opens to itself under the same nonce, the tag adds 16
-- bytes, nothing opens that was not sealed (the cipher is deterministic and its tag is checked),
-- and what opens consists of bytes.
pub record IsAead (a : Aead) : Type 0 where
  pub opens : (nonce text : Bytes) → AreBytes text → a.unseal nonce (a.seal nonce text) ≡ some text
  pub tag_len : (nonce text : Bytes) → length (a.seal nonce text) ≡ length text + 16
  pub authentic : (nonce ct text : Bytes) → a.unseal nonce ct ≡ some text → ct ≡ a.seal nonce text
  pub plain : (nonce ct text : Bytes) → a.unseal nonce ct ≡ some text → AreBytes text
