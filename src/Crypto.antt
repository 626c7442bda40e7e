-- ===== src/Crypto.antt =====
-- Keys as texts: internal/crypto/key.go (`EncodeKey`, `DecodeKey`), internal/crypto/keyencrypt.go
-- (`EncryptKey`, `DecryptKey`) and cmd/vpn/keyload.go. A text is its bytes. Unpadded base64,
-- scrypt with the parameters that the code fixes, and the AEAD under a key are parameters of the
-- model; an error of theirs is `none`. The random bytes are arguments.
pub mod RoundTrip
mod Tests
use vibe_vpn.Base.{
  ℕ, ◌+◌, ◌≡◌, ◌≢◌, All, Bool, true, false, not, ◌&&◌, ◌||◌, Option, none, some, ◌==◌, ltb,
  if◌then◌else◌, List, [], ◌∷◌, ◌++◌, length, Bytes, AreBytes, Result, ok, err,
}
use vibe_vpn.Aead.{Aead, IsAead}

pub record Primitives : Type 0 where
  pub base64 : Bytes → Bytes
  pub unbase64 : Bytes → Option Bytes
  pub scrypt : Bytes → Bytes → Option Bytes
  pub aead : Bytes → Option Aead

-- ':'
abbrev pub colon : ℕ
colon = 58

-- Documented behaviour: base64 decodes what it encoded, to bytes only, and its alphabet has no
-- colon; an AEAD is one, and it seals bytes to bytes.
pub record ArePrimitives (p : Primitives) : Type 0 where
  pub decodes : (b : Bytes) → AreBytes b → p.unbase64 (p.base64 b) ≡ some b
  pub no_colon : (b : Bytes) → All (λ c. c ≢ colon) (p.base64 b)
  pub seals : (key : Bytes) (a : Aead) → p.aead key ≡ some a → IsAead a
  pub sealed :
      (key : Bytes) (a : Aead) (nonce text : Bytes)
      → p.aead key ≡ some a
      → AreBytes text
      → AreBytes (a.seal nonce text)

pub data KeyError : Type 0 where
  key_length no_passphrase no_random no_key no_cipher not_blob malformed bad_salt bad_nonce bad_text
        wrong_passphrase bad_key bad_encoding no_terminal no_input :
      KeyError

infixl 5 ◌>>=◌
abbrev pub ◌>>=◌ : {A B : Type 0} → Result KeyError A → (A → Result KeyError B) → Result KeyError B
err e >>= f = err e
ok a >>= f = f a

-- A result of another package, with the error that the caller gives.
abbrev pub or_else : {A : Type 0} → Option A → KeyError → Result KeyError A
or_else none e = err e
or_else (some a) e = ok a

abbrev pub require : Bool → KeyError → Result KeyError Bool
require b e = if b then ok b else err e

abbrev pub encode_key : Primitives → Bytes → Bytes
encode_key p b = p.base64 b

unfoldable pub decode_key : Primitives → Bytes → Result KeyError Bytes
decode_key p s = do
  b ← or_else (p.unbase64 s) bad_encoding
  _ ← require (length b == 32) key_length
  ok b

-- "v1:"
abbrev pub key_blob_prefix : Bytes
key_blob_prefix = 118 ∷ 49 ∷ colon ∷ []

abbrev pub key_salt_len : ℕ
key_salt_len = 16

abbrev pub key_nonce_len : ℕ
key_nonce_len = 12

-- `salt` and `nonce` are what rand.Read fills in, if it does.
unfoldable pub encrypt_key :
    Primitives → Option Bytes → Option Bytes → Bytes → Bytes → Result KeyError Bytes
encrypt_key p salt nonce priv passphrase = do
  _ ← require (length priv == 32) key_length
  _ ← require (not (length passphrase == 0)) no_passphrase
  salt ← or_else salt no_random
  key ← or_else (p.scrypt passphrase salt) no_key
  aead ← or_else (p.aead key) no_cipher
  nonce ← or_else nonce no_random
  let ct = aead.seal nonce priv in
      ok (key_blob_prefix ++ (p.base64 salt ++ (colon ∷ (p.base64 nonce ++ (colon ∷ p.base64 ct)))))

-- strings.TrimPrefix, where strings.HasPrefix holds.
abbrev pub trim_prefix : Bytes → Bytes → Option Bytes
trim_prefix [] b = some b
trim_prefix (x ∷ prefix) [] = none
trim_prefix (x ∷ prefix) (y ∷ b) = if x == y then trim_prefix prefix b else none

-- strings.Split at a colon.
abbrev pub push_char : ℕ → List Bytes → List Bytes
push_char c [] = (c ∷ []) ∷ []
push_char c (part ∷ parts) = (c ∷ part) ∷ parts

abbrev pub split : Bytes → List Bytes
split [] = [] ∷ []
split (c ∷ b) = if c == colon then [] ∷ split b else push_char c (split b)

abbrev pub three_parts : List Bytes → Option (Bytes × Bytes × Bytes)
three_parts (a ∷ b ∷ c ∷ []) = some (a, b, c)
three_parts _ = none

-- The end of `DecryptKey`, from the key on.
unfoldable pub open_key : Primitives → Bytes → Bytes → Bytes → Bytes → Result KeyError Bytes
open_key p salt nonce ct passphrase = do
  key ← or_else (p.scrypt passphrase salt) no_key
  aead ← or_else (p.aead key) no_cipher
  priv ← or_else (aead.unseal nonce ct) wrong_passphrase
  _ ← require (length priv == 32) bad_key
  ok priv

-- Its checks of the three parts.
unfoldable pub open_parts : Primitives → Bytes × Bytes × Bytes → Bytes → Result KeyError Bytes
open_parts p (s, n, c) passphrase = do
  salt ← or_else (p.unbase64 s) bad_salt
  _ ← require (length salt == key_salt_len) bad_salt
  nonce ← or_else (p.unbase64 n) bad_nonce
  _ ← require (length nonce == key_nonce_len) bad_nonce
  ct ← or_else (p.unbase64 c) bad_text
  _ ← require (not (ltb (length ct) 16)) bad_text
  open_key p salt nonce ct passphrase

unfoldable pub decrypt_key : Primitives → Bytes → Bytes → Result KeyError Bytes
decrypt_key p blob passphrase = do
  text ← or_else (trim_prefix key_blob_prefix blob) not_blob
  parts ← or_else (three_parts (split text)) malformed
  open_parts p parts passphrase

-- `variable` is VIBE_VPN_PASSPHRASE, empty if it is not set; `terminal` is what reading from the
-- terminal gives, if standard input is one.
unfoldable pub load_private_key :
    Primitives → Bytes → Option (Option Bytes) → Bytes → Bytes → Result KeyError Bytes
load_private_key p variable terminal priv encrypted =
    let prompted : Result KeyError Bytes = (do
      input ← or_else terminal no_terminal
      or_else input no_input) in
    if length encrypted == 0
    then decode_key p priv
    else ((if length variable == 0 then prompted else ok variable) >>= decrypt_key p encrypted)
