-- ===== src/Aead/Clear.antt =====
-- A cipher that hides nothing and tags a text with sixteen zeros in front: it shows that the
-- hypotheses on an AEAD can be met, and runs in the tests.
use vibe_vpn.Base.{
  ℕ, zero, suc, ◌≡◌, refl, Bool, true, ◌&&◌, Option, none, some, [], ◌∷◌, ◌++◌, Bytes, AreBytes,
  replicate, ltb, ◌==◌, if◌then◌else◌, arith,
}
use vibe_vpn.Aead.{Aead, IsAead}

unfoldable pub are_bytes : Bytes → Bool
are_bytes [] = true
are_bytes (b ∷ bs) = ltb b 256 && are_bytes bs

pub are_bytes_iff :
    (b : Bytes) → ((are_bytes b ≡ true) → AreBytes b) × (AreBytes b → are_bytes b ≡ true)
unfolding are_bytes
are_bytes_iff [] = (λ _. tt, λ _. refl)
are_bytes_iff (b ∷ bs) =
    let (to, of) = are_bytes_iff bs in (λ h. ground (arith, to), λ h. ground (arith, of h.1))

unfoldable pub strip : ℕ → Bytes → Option Bytes
strip zero b = if are_bytes b then some b else none
strip (suc n) [] = none
strip (suc n) (x ∷ b) = if x == 0 then strip n b else none

strip-replicate : (n : ℕ) (b : Bytes) → AreBytes b → strip n (replicate n 0 ++ b) ≡ some b
unfolding strip
strip-replicate zero b h = rw ((are_bytes_iff b).1 h)
strip-replicate (suc n) b h = strip-replicate n b h

strip_sound : (n : ℕ) (ct b : Bytes) → strip n ct ≡ some b → (ct ≡ replicate n 0 ++ b) × AreBytes b
unfolding strip
strip_sound zero ct b e = (ground arith, ground (arith, (are_bytes_iff ct).0))
strip_sound (suc n) [] b e = absurd (ground arith)
strip_sound (suc n) (x ∷ ct) b e = ground (arith, strip_sound n ct b)

unfoldable pub clear : Aead
unfolding strip are_bytes
clear = record { seal = λ nonce text. replicate 16 0 ++ text; unseal = λ nonce ct. strip 16 ct }

pub clear-IsAead : IsAead clear
unfolding clear
clear-IsAead = record {
  opens = λ nonce text h. strip-replicate 16 text h;
  tag_len = λ nonce text. omega arith;
  authentic = λ nonce ct text e. (strip_sound 16 ct text e).0;
  plain = λ nonce ct text e. (strip_sound 16 ct text e).1;
}
