-- ===== src/Crypto/RoundTrip.antt =====
-- EncryptKey and DecryptKey of internal/crypto/keyencrypt.go, one after the other.
use vibe_vpn.Base.{
  ◌≡◌, ◌≢◌, All, refl, some, [], ◌∷◌, ◌++◌, length, Bytes, AreBytes, ok, arith, Option-cases, inl,
  inr,
}
use vibe_vpn.Aead.{Aead}
use vibe_vpn.Crypto.{
  Primitives, ArePrimitives, encrypt_key, decrypt_key, open_parts, open_key, split, three_parts,
  colon, trim_prefix, key_blob_prefix, key_salt_len, key_nonce_len,
}

split_last : (a : Bytes) → All (λ c. c ≢ colon) a → split a ≡ a ∷ []
split_last [] h = refl
split_last (c ∷ a) h = ground (arith, split_last a h.1)

split-append : (a b : Bytes) → All (λ c. c ≢ colon) a → split (a ++ (colon ∷ b)) ≡ a ∷ split b
split-append [] b h = refl
split-append (c ∷ a) b h = ground (arith, split-append a b h.1)

split_three :
    (a b c : Bytes)
    → All (λ c. c ≢ colon) a
    → All (λ c. c ≢ colon) b
    → All (λ c. c ≢ colon) c
    → three_parts (split (a ++ (colon ∷ (b ++ (colon ∷ c))))) ≡ some (a, b, c)
split_three a b c ha hb hc =
    ground (arith, split-append a (b ++ (colon ∷ c)) ha, split-append b c hb, split_last c hc)

-- The parts of a run of `encrypt_key` that succeeds.
record Encrypted (p : Primitives) (salt nonce priv passphrase blob : Bytes) : Type 0 where
  key : Bytes
  aead : Aead
  right_length : length priv ≡ 32
  derives : p.scrypt passphrase salt ≡ some key
  ciphers : p.aead key ≡ some aead
  written :
      blob
      ≡ key_blob_prefix
        ++ (p.base64 salt
            ++ (colon ∷ (p.base64 nonce ++ (colon ∷ p.base64 (aead.seal nonce priv)))))

encrypt_key-Encrypted :
    (p : Primitives) (salt nonce priv passphrase blob : Bytes)
    → encrypt_key p (some salt) (some nonce) priv passphrase ≡ ok blob
    → Encrypted p salt nonce priv passphrase blob
unfolding encrypt_key
encrypt_key-Encrypted p salt nonce priv passphrase blob e =
    elim (Option-cases (p.scrypt passphrase salt)) [
      | inl no_key ↦ absurd (ground arith)
      | inr (key, derives) ↦ elim (Option-cases (p.aead key)) [
        | inl no_cipher ↦ absurd (ground arith)
        | inr (aead, ciphers) ↦ record {
          key = key;
          aead = aead;
          right_length = ground arith;
          derives = derives;
          ciphers = ciphers;
          written = ground arith;
        }
      ]
    ]

-- Under the documented behaviour of the primitives, a key that `EncryptKey` encrypts under a
-- passphrase, `DecryptKey` gives back under the same one.
pub decrypt_key-encrypt_key :
    (p : Primitives) (salt nonce priv passphrase blob : Bytes)
    → ArePrimitives p
    → (length salt ≡ key_salt_len) × AreBytes salt
    → (length nonce ≡ key_nonce_len) × AreBytes nonce
    → AreBytes priv
    → encrypt_key p (some salt) (some nonce) priv passphrase ≡ ok blob
    → decrypt_key p blob passphrase ≡ ok priv
unfolding decrypt_key open_parts open_key
decrypt_key-encrypt_key p salt nonce priv passphrase blob v s n bytes e =
    let x = encrypt_key-Encrypted p salt nonce priv passphrase blob e in
    let a = x.aead in
    let ct : Bytes = a.seal nonce priv in
    let c = v.seals x.key a x.ciphers in
    ground (
      arith,
      x.written,
      split_three (p.base64 salt) (p.base64 nonce) (p.base64 ct) (v.no_colon salt)
          (v.no_colon nonce) (v.no_colon ct),
      v.decodes salt s.1,
      v.decodes nonce n.1,
      v.decodes ct (v.sealed x.key a nonce priv x.ciphers bytes),
      c.tag_len nonce priv,
      c.opens nonce priv bytes,
      x.derives,
      x.ciphers,
      x.right_length,
    )

-- What a text that decrypts holds: the key, sealed under the passphrase.
pub record Sealed (p : Primitives) (blob passphrase priv : Bytes) : Type 0 where
  pub salt : Bytes
  pub nonce : Bytes
  pub key : Bytes
  pub aead : Aead
  pub text : Bytes × Bytes × Bytes
  pub parts :
      (rest : Bytes) × (trim_prefix key_blob_prefix blob ≡ some rest)
      × (three_parts (split rest) ≡ some text)
  pub salted : (p.unbase64 text.0 ≡ some salt) × (length salt ≡ key_salt_len)
  pub numbered : (p.unbase64 text.1 ≡ some nonce) × (length nonce ≡ key_nonce_len)
  pub derives : p.scrypt passphrase salt ≡ some key
  pub ciphers : p.aead key ≡ some aead
  pub holds : p.unbase64 text.2 ≡ some (aead.seal nonce priv)
  pub right_length : length priv ≡ 32

open_key_sound :
    (p : Primitives) (salt nonce ct passphrase priv : Bytes)
    → ArePrimitives p
    → open_key p salt nonce ct passphrase ≡ ok priv
    → (key : Bytes) × (a : Aead) × (p.scrypt passphrase salt ≡ some key)
      × (p.aead key ≡ some a)
      × (ct ≡ a.seal nonce priv)
      × (length priv ≡ 32)
unfolding open_key
open_key_sound p salt nonce ct passphrase priv v e =
    elim (Option-cases (p.scrypt passphrase salt)) [
      | inl bad ↦ absurd (ground arith)
      | inr (key, derives) ↦ elim (Option-cases (p.aead key)) [
        | inl bad ↦ absurd (ground arith)
        | inr (a, ciphers) ↦ elim (Option-cases (a.unseal nonce ct)) [
          | inl bad ↦ absurd (ground arith)
          | inr (text, opens) ↦
              let c = v.seals key a ciphers in
              (
                key,
                a,
                derives,
                ciphers,
                ground (arith, c.authentic nonce ct text opens),
                ground arith,
              )
        ]
      ]
    ]

open_parts_sound :
    (p : Primitives) (blob passphrase priv rest : Bytes) (text : Bytes × Bytes × Bytes)
    → ArePrimitives p
    → trim_prefix key_blob_prefix blob ≡ some rest
    → three_parts (split rest) ≡ some text
    → open_parts p text passphrase ≡ ok priv
    → Sealed p blob passphrase priv
unfolding open_parts
open_parts_sound p blob passphrase priv rest (s, n, c) v r parts e =
    elim (Option-cases (p.unbase64 s)) [
      | inl bad ↦ absurd (ground arith)
      | inr (salt, is_salt) ↦ elim (Option-cases (p.unbase64 n)) [
        | inl bad ↦ absurd (ground arith)
        | inr (nonce, is_nonce) ↦ elim (Option-cases (p.unbase64 c)) [
          | inl bad ↦ absurd (ground arith)
          | inr (ct, is_ct) ↦
              let (key, a, derives, ciphers, same, long) =
                open_key_sound p salt nonce ct passphrase priv v (ground arith) in
              record {
                salt = salt;
                nonce = nonce;
                key = key;
                aead = a;
                text = (s, n, c);
                parts = (rest, r, parts);
                salted = (is_salt, ground arith);
                numbered = (is_nonce, ground arith);
                derives = derives;
                ciphers = ciphers;
                holds = rw (← same) is_ct;
                right_length = long;
              }
        ]
      ]
    ]

-- A text from which `DecryptKey` takes a key under a passphrase holds that key, sealed under the
-- passphrase and the salt and the nonce that stand in the text; and the key has 32 bytes.
pub decrypt_key_sound :
    (p : Primitives) (blob passphrase priv : Bytes)
    → ArePrimitives p
    → decrypt_key p blob passphrase ≡ ok priv
    → Sealed p blob passphrase priv
unfolding decrypt_key
decrypt_key_sound p blob passphrase priv v e =
    elim (Option-cases (trim_prefix key_blob_prefix blob)) [
      | inl bad ↦ absurd (ground arith)
      | inr (rest, r) ↦ elim (Option-cases (three_parts (split rest))) [
        | inl bad ↦ absurd (ground arith)
        | inr (text, parts) ↦
            open_parts_sound p blob passphrase priv rest text v r parts (ground arith)
      ]
    ]
