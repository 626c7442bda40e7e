-- ===== src/Framing/Parse.antt =====
-- `ParseInner` on any plaintext.
use vibe_vpn.Base.{
  ℕ, ◌+◌, ◌*◌, ◌%◌, ◌^◌, ◌<◌, ◌≡◌, ◌≢◌, none, some, [], ◌∷◌, ◌++◌, Bytes, ok, err, get_be, put_u16,
  put_u32, length, take, drop, ltb, if◌then◌else◌, arith, Result-cases, inl, inr, AreBytes, IsByte,
  take-append-drop, get_elem?-eq_get_or, get_be-put_u32, get_be-put_u16, take-append, length-append,
  length-take,
}
use vibe_vpn.Aead.{Aead}
use vibe_vpn.Framing.{Frame, short, inner_plaintext, parse_inner, open_frame, open_into}

-- `ParseInner` never reads outside the plaintext, whatever it holds.
pub parse_inner_total : (inner : Bytes) → parse_inner inner ≢ none
unfolding parse_inner
parse_inner_total inner = ground (arith, get_elem?-eq_get_or inner 4)

-- The header that `Seal` writes, read back, in front of anything at all.
parse_header :
    (a b c d typ seq plen : ℕ) (rest : Bytes)
    → plen < 2 ^ 16
    → parse_inner (a ∷ b ∷ c ∷ d ∷ typ ∷ (put_u32 (seq % 2 ^ 32) ++ (put_u16 plen ++ rest))) ≡ (
        if ltb (length rest) plen
        then some (err short)
        else some (
            ok (record {
              tag = a ∷ b ∷ c ∷ d ∷ [];
              type = typ;
              seq = seq % 2 ^ 32;
              payload = take plen rest;
            })))
unfolding parse_inner
parse_header a b c d typ seq plen rest h =
    ground (arith, get_be-put_u32 (seq % 2 ^ 32), get_be-put_u16 plen)

-- Whatever `Seal` writes as plaintext parses back to its parts; the padding is discarded.
pub parse_inner-inner_plaintext :
    (tag : Bytes) (typ seq : ℕ) (payload padding : Bytes)
    → length tag ≡ 4
    → length payload < 2 ^ 16
    → parse_inner (inner_plaintext tag typ seq payload padding)
      ≡ some (ok (record { tag = tag; type = typ; seq = seq % 2 ^ 32; payload = payload }))
unfolding inner_plaintext
parse_inner-inner_plaintext (a ∷ b ∷ c ∷ d ∷ []) typ seq payload padding h small =
    let m : length payload % 2 ^ 16 ≡ length payload = omega arith in
    rw (m, parse_header a b c d typ seq (length payload) (payload ++ padding) small)
      (ground (arith, length-append payload padding, take-append (length payload) payload padding))
parse_inner-inner_plaintext tag typ seq payload padding h small = absurd (omega arith)

-- The parse of a plaintext with its header written out.
parse_eleven :
    (a b c d t s0 s1 s2 s3 l0 l1 : ℕ) (rest : Bytes)
    → parse_inner (a ∷ b ∷ c ∷ d ∷ t ∷ s0 ∷ s1 ∷ s2 ∷ s3 ∷ l0 ∷ l1 ∷ rest) ≡ (
        if ltb (length rest) (l0 * 2 ^ 8 + l1)
        then some (err short)
        else some (
            ok (record {
              tag = a ∷ b ∷ c ∷ d ∷ [];
              type = t;
              seq = ((s0 * 2 ^ 8 + s1) * 2 ^ 8 + s2) * 2 ^ 8 + s3;
              payload = take (l0 * 2 ^ 8 + l1) rest;
            })))
unfolding parse_inner get_be
parse_eleven a b c d t s0 s1 s2 s3 l0 l1 rest = ground arith

put_u32-digits :
    (s0 s1 s2 s3 : ℕ)
    → IsByte s0
    → IsByte s1
    → IsByte s2
    → IsByte s3
    → put_u32 ((((s0 * 2 ^ 8 + s1) * 2 ^ 8 + s2) * 2 ^ 8 + s3) % 2 ^ 32) ≡ s0 ∷ s1 ∷ s2 ∷ s3 ∷ []
put_u32-digits s0 s1 s2 s3 h0 h1 h2 h3 = ground arith

put_u16-digits :
    (l0 l1 : ℕ) → IsByte l0 → IsByte l1 → put_u16 ((l0 * 2 ^ 8 + l1) % 2 ^ 16) ≡ l0 ∷ l1 ∷ []
put_u16-digits l0 l1 h0 h1 = ground arith

-- Whatever parses is what `Seal` would have written for the parts, with some padding.
pub parse_inner_sound :
    (inner : Bytes) (f : Frame)
    → AreBytes inner
    → parse_inner inner ≡ some (ok f)
    → (padding : Bytes) × (inner ≡ inner_plaintext f.tag f.type f.seq f.payload padding)
      × (length f.tag ≡ 4)
unfolding inner_plaintext
parse_inner_sound (a ∷ b ∷ c ∷ d ∷ t ∷ s0 ∷ s1 ∷ s2 ∷ s3 ∷ l0 ∷ l1 ∷ rest) f h e = (
  drop (l0 * 2 ^ 8 + l1) rest,
  ground (
    arith,
    parse_eleven a b c d t s0 s1 s2 s3 l0 l1 rest,
    put_u32-digits s0 s1 s2 s3,
    put_u16-digits l0 l1,
    take-append-drop (l0 * 2 ^ 8 + l1) rest,
    length-take (l0 * 2 ^ 8 + l1) rest,
  ),
  ground (arith, parse_eleven a b c d t s0 s1 s2 s3 l0 l1 rest),
)
parse_inner_sound inner f h e = absurd (unfold parse_inner in ground arith)

-- Nor does `Open`.
pub open_frame_total : (a : Aead) (wire : Bytes) → open_frame a wire ≢ none
unfolding open_frame
open_frame_total a wire = elim (Result-cases (open_into a wire)) [
  | inl (text, e) ↦ rw e (parse_inner_total text)
  | inr (why, e) ↦ rw e (ground arith)
]

-- The number of a frame that parses has 32 bits.
pub parse_inner-seq-lt :
    (inner : Bytes) (f : Frame) → AreBytes inner → parse_inner inner ≡ some (ok f) → f.seq < 2 ^ 32
parse_inner-seq-lt (a ∷ b ∷ c ∷ d ∷ t ∷ s0 ∷ s1 ∷ s2 ∷ s3 ∷ l0 ∷ l1 ∷ rest) f h e =
    ground (arith, parse_eleven a b c d t s0 s1 s2 s3 l0 l1 rest)
parse_inner-seq-lt inner f h e = absurd (unfold parse_inner in ground arith)
