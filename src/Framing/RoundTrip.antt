-- ===== src/Framing/RoundTrip.antt =====
-- `Open` after `Seal`, and what a frame that opens must have been.
use vibe_vpn.Base.{
  ℕ, ◌+◌, ◌%◌, ◌^◌, ◌≤◌, ◌<◌, ◌≡◌, ◌↔◌, inl, inr, Option-cases, none, some, [], ◌∷◌, ◌++◌, Bytes,
  ap, sym, ◌∙◌, length-take, AreBytes, ◌++◌, ok, put_u16, put_u32, length, take, drop, arith,
  length-append, take-append, drop-append, take-append-drop,
}
use vibe_vpn.Aead.{Aead, IsAead}
use vibe_vpn.Framing.{Frame, inner_plaintext, parse_inner, seal, open_into, open_frame, max_wire}
use vibe_vpn.Framing.Parse.{parse_inner-inner_plaintext, parse_inner-seq-lt, parse_inner_sound}

-- `Seal` panics exactly on a frame that is longer than the largest datagram.
pub seal-eq-none :
    (a : Aead) (nonce tag : Bytes) (typ seq : ℕ) (payload padding : Bytes)
    → (seal a nonce tag typ seq payload padding ≡ none)
      ↔ (max_wire < 39 + length payload + length padding)
unfolding seal
seal-eq-none a nonce tag typ seq payload padding = ground arith

pub length-inner_plaintext :
    (tag : Bytes) (typ seq : ℕ) (payload padding : Bytes)
    → length tag ≡ 4
    → length (inner_plaintext tag typ seq payload padding) ≡ 11 + length payload + length padding
unfolding inner_plaintext
length-inner_plaintext tag typ seq payload padding h = omega (
  arith,
  length-append tag (
      typ
      ∷ (put_u32 (seq % 2 ^ 32) ++ (put_u16 (length payload % 2 ^ 16) ++ (payload ++ padding)))),
  length-append payload padding,
)

inner_plaintext-AreBytes :
    (tag : Bytes) (typ seq : ℕ) (payload padding : Bytes)
    → AreBytes (tag ++ (typ ∷ (payload ++ padding)))
    → AreBytes (inner_plaintext tag typ seq payload padding)
unfolding inner_plaintext
inner_plaintext-AreBytes [] typ seq payload padding h =
    let byte : (n : ℕ) → n % 2 ^ 8 < 256 = λ n. omega arith in
    (h.0, (byte _, (byte _, (byte _, (byte _, (byte _, (byte _, h.1)))))))
inner_plaintext-AreBytes (t ∷ tag) typ seq payload padding h =
    (h.0, unfold inner_plaintext in inner_plaintext-AreBytes tag typ seq payload padding h.1)

open_into-sealed :
    (a : Aead) (nonce text : Bytes)
    → IsAead a
    → length nonce ≡ 12
    → 11 ≤ length text
    → AreBytes text
    → open_into a (nonce ++ a.seal nonce text) ≡ ok text
unfolding open_into
open_into-sealed a nonce text v h k b = ground (
  arith,
  length-append nonce (a.seal nonce text),
  take-append 12 nonce (a.seal nonce text),
  drop-append 12 nonce (a.seal nonce text),
  v.opens nonce text b,
  v.tag_len nonce text,
)

-- Under an AEAD with its documented behaviour and a nonce of 12 bytes, what `Seal` returns opens to
-- the 4-byte tag, the type, the low 32 bits of the number and the payload that went in, for every
-- payload that fits the 16-bit length field, whatever the padding; the wire is 39 bytes longer
-- than payload and padding.
pub open_frame-seal :
    (a : Aead) (nonce tag : Bytes) (typ seq : ℕ) (payload padding wire : Bytes)
    → IsAead a
    → length nonce ≡ 12
    → length tag ≡ 4
    → length payload < 2 ^ 16
    → AreBytes (tag ++ (typ ∷ (payload ++ padding)))
    → seal a nonce tag typ seq payload padding ≡ some wire
    → (open_frame a wire
        ≡ some (ok (record { tag = tag; type = typ; seq = seq % 2 ^ 32; payload = payload })))
      × (length wire ≡ 39 + length payload + length padding)
unfolding open_frame seal
open_frame-seal a nonce tag typ seq payload padding wire v hn ht hp hb e =
    let text = inner_plaintext tag typ seq payload padding in
    let len : length text ≡ 11 + length payload + length padding =
      length-inner_plaintext tag typ seq payload padding ht in
    let w : nonce ++ a.seal nonce text ≡ wire = ground arith in
    let opens : open_into a wire ≡ ok text = rw (← w) (
      open_into-sealed a nonce text v hn (omega arith)
        (inner_plaintext-AreBytes tag typ seq payload padding hb)) in
    (
      rw opens (parse_inner-inner_plaintext tag typ seq payload padding ht hp),
      rw (← w) (omega (arith, length-append nonce (a.seal nonce text), v.tag_len nonce text)),
    )

-- Under an AEAD with its documented behaviour, a frame that opens was sealed under the same key: its
-- ciphertext is the sealing, under the nonce in front of it, of a plaintext that parses to the
-- frame.
pub open_frame_authentic :
    (a : Aead) (wire : Bytes) (f : Frame)
    → IsAead a
    → open_frame a wire ≡ some (ok f)
    → (text : Bytes) × (wire ≡ take 12 wire ++ a.seal (take 12 wire) text)
      × (parse_inner text ≡ some (ok f))
unfolding open_frame open_into
open_frame_authentic a wire f v e = elim (Option-cases (a.unseal (take 12 wire) (drop 12 wire))) [
  | inl closed ↦ absurd (ground arith)
  | inr (text, opens) ↦
      (text, ground (arith, v.authentic _ _ text opens, take-append-drop 12 wire), ground arith)
]

pub open_frame-seq-lt :
    (a : Aead) (wire : Bytes) (f : Frame)
    → IsAead a
    → open_frame a wire ≡ some (ok f)
    → f.seq < 2 ^ 32
unfolding open_frame open_into
open_frame-seq-lt a wire f v e = elim (Option-cases (a.unseal (take 12 wire) (drop 12 wire))) [
  | inl closed ↦ absurd (ground arith)
  | inr (text, opens) ↦ parse_inner-seq-lt text f (v.plain _ _ text opens) (ground arith)
]

sealed_back :
    (a : Aead) (wire text padding : Bytes) (f : Frame)
    → IsAead a
    → 12 ≤ length wire
    → length wire ≤ max_wire
    → wire ≡ take 12 wire ++ a.seal (take 12 wire) text
    → text ≡ inner_plaintext f.tag f.type f.seq f.payload padding
    → length f.tag ≡ 4
    → seal a (take 12 wire) f.tag f.type f.seq f.payload padding ≡ some wire
unfolding seal
sealed_back a wire text padding f v long short split plain four =
    let nonce : Bytes = take 12 wire in
    let inner : length text ≡ 11 + length f.payload + length padding =
      ap length plain ∙ length-inner_plaintext f.tag f.type f.seq f.payload padding four in
    let total : length wire ≡ 12 + (length text + 16) = omega (
      arith,
      ap length split,
      length-append nonce (a.seal nonce text),
      length-take 12 wire,
      v.tag_len nonce text,
    ) in
    let fits : 12 + (11 + length f.payload + length padding) + 16 ≤ max_wire = omega arith in
    let built : wire
        ≡ nonce ++ a.seal nonce (inner_plaintext f.tag f.type f.seq f.payload padding) =
      split ∙ ap (λ (b : Bytes). nonce ++ a.seal nonce b) plain in
    ground (arith, fits, sym built)

-- Under an AEAD with its documented behaviour, whatever opens, and is not longer than a datagram, is
-- what `Seal` returns for the parts of the frame, under the nonce in front and with some padding.
pub open_frame_sound :
    (a : Aead) (wire : Bytes) (f : Frame)
    → IsAead a
    → length wire ≤ max_wire
    → open_frame a wire ≡ some (ok f)
    → (padding : Bytes) × (seal a (take 12 wire) f.tag f.type f.seq f.payload padding ≡ some wire)
      × (length f.tag ≡ 4)
unfolding open_frame open_into
open_frame_sound a wire f v short e = elim (Option-cases (a.unseal (take 12 wire) (drop 12 wire))) [
  | inl closed ↦ absurd (ground arith)
  | inr (text, opens) ↦
      let long : 12 ≤ length wire = ground arith in
      let split : wire ≡ take 12 wire ++ a.seal (take 12 wire) text =
        ground (arith, v.authentic _ _ text opens, take-append-drop 12 wire) in
      let (padding, plain, four) =
        parse_inner_sound text f (v.plain _ _ text opens) (ground arith) in
      (padding, sealed_back a wire text padding f v long short split plain four, four)
]
