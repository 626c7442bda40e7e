-- ===== src/Crypto/Tests.antt =====
-- A key under toy primitives: base64 that only moves the bytes away from the colon.
use vibe_vpn.Base.{
  ◌+◌, ◌-◌, ◌≡◌, ◌≢◌, All, refl, some, [], ◌∷◌, ◌++◌, Bytes, AreBytes, Result, ok, arith, replicate,
  subst,
}
use vibe_vpn.Aead.{Aead, IsAead}
use vibe_vpn.Aead.Clear.{clear, clear-IsAead, are_bytes, are_bytes_iff}
use vibe_vpn.Crypto.{
  Primitives, ArePrimitives, KeyError, colon, encrypt_key, decrypt_key, open_parts, open_key,
}
use vibe_vpn.Crypto.RoundTrip.{decrypt_key-encrypt_key}

abbrev moved : Bytes → Bytes
moved [] = []
moved (c ∷ b) = (c + 100) ∷ moved b

abbrev moved_back : Bytes → Bytes
moved_back [] = []
moved_back (c ∷ b) = (c - 100) ∷ moved_back b

abbrev toy : Primitives
toy = record {
  base64 = moved;
  unbase64 = λ b. some (moved_back b);
  scrypt = λ passphrase salt. some (passphrase ++ salt);
  aead = λ key. some clear;
}

moved_back-moved : (b : Bytes) → moved_back (moved b) ≡ b
moved_back-moved [] = refl
moved_back-moved (c ∷ b) = ground (arith, moved_back-moved b)

moved_no_colon : (b : Bytes) → All (λ c. c ≢ colon) (moved b)
moved_no_colon [] = tt
moved_no_colon (c ∷ b) = (λ e. absurd (omega arith), moved_no_colon b)

clear-AreBytes : (nonce text : Bytes) → AreBytes text → AreBytes (clear.seal nonce text)
unfolding clear
clear-AreBytes nonce text h = ground arith

toy-ArePrimitives : ArePrimitives toy
toy-ArePrimitives = record {
  decodes = λ b h. ground (arith, moved_back-moved b);
  no_colon = moved_no_colon;
  seals = λ key a e. subst IsAead (ground arith) clear-IsAead;
  sealed = λ key a nonce text e h.
      let same : clear ≡ a = ground arith in
      subst (λ (x : Aead). AreBytes (x.seal nonce text)) same (clear-AreBytes nonce text h);
}

abbrev salt : Bytes
salt = replicate 16 1

abbrev nonce : Bytes
nonce = replicate 12 2

abbrev priv : Bytes
priv = replicate 32 3

abbrev word : Bytes
word = 112 ∷ 119 ∷ []

abbrev blob_of : Result KeyError Bytes → Bytes
blob_of (ok b) = b
blob_of _ = []

abbrev blob : Bytes
blob = blob_of (encrypt_key toy (some salt) (some nonce) priv word)

encrypts : encrypt_key toy (some salt) (some nonce) priv word ≡ ok blob
unfolding encrypt_key clear
encrypts = refl

ranges : AreBytes salt × AreBytes nonce × AreBytes priv
unfolding are_bytes
ranges = ((are_bytes_iff salt).0 refl, (are_bytes_iff nonce).0 refl, (are_bytes_iff priv).0 refl)

decrypt_key-encrypt_key_example : decrypt_key toy blob word ≡ ok priv
decrypt_key-encrypt_key_example =
    decrypt_key-encrypt_key toy salt nonce priv word blob toy-ArePrimitives (refl, ranges.0)
      (refl, ranges.1) ranges.2 encrypts

decrypts : decrypt_key toy blob word ≡ ok priv
unfolding decrypt_key open_parts open_key encrypt_key clear
decrypts = refl
