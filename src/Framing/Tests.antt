-- ===== src/Framing/Tests.antt =====
-- A frame of two bytes of payload and one of padding, under the cipher of Aead.Clear.
use vibe_vpn.Base.{
  ◌+◌, ◌≡◌, ◌≢◌, ◌%◌, ◌^◌, refl, none, some, [], ◌∷◌, ◌++◌, Bytes, AreBytes, ok, err, arith, length,
  take, pos, get_be,
}
use vibe_vpn.Aead.Clear.{clear, clear-IsAead}
use vibe_vpn.Framing.{Frame, short, inner_plaintext, seal, open_into, parse_inner, open_frame}
use vibe_vpn.Framing.Parse.{open_frame_total}
use vibe_vpn.Framing.RoundTrip.{open_frame-seal, open_frame_sound}
use vibe_vpn.Framing.Shaping.{Rng, Shaping}

abbrev zeros : Bytes
zeros = 0 ∷ 0 ∷ 0 ∷ 0 ∷ 0 ∷ 0 ∷ 0 ∷ 0 ∷ 0 ∷ 0 ∷ 0 ∷ 0 ∷ []

abbrev tag : Bytes
tag = 1 ∷ 2 ∷ 3 ∷ 4 ∷ []

abbrev inner : Bytes
inner = 1 ∷ 2 ∷ 3 ∷ 4 ∷ 4 ∷ 0 ∷ 0 ∷ 0 ∷ 7 ∷ 0 ∷ 2 ∷ 65 ∷ 66 ∷ 9 ∷ []

abbrev wire : Bytes
wire = zeros ++ (0 ∷ 0 ∷ 0 ∷ 0 ∷ zeros) ++ inner

abbrev frame : Frame
frame = record { tag = tag; type = 4; seq = 7; payload = 65 ∷ 66 ∷ [] }

sealed : seal clear zeros tag 4 7 (65 ∷ 66 ∷ []) (9 ∷ []) ≡ some wire
unfolding seal inner_plaintext clear
sealed = refl

parsed : parse_inner inner ≡ some (ok frame)
unfolding parse_inner get_be
parsed = refl

opened : open_frame clear wire ≡ some (ok frame)
unfolding open_frame open_into clear parse_inner get_be
opened = refl

bytes : AreBytes (tag ++ (4 ∷ (65 ∷ 66 ∷ 9 ∷ [])))
bytes = (
  omega arith,
  (
    omega arith,
    (omega arith, (omega arith, (omega arith, (omega arith, (omega arith, (omega arith, tt)))))),
  ),
)

open_frame-seal_example :
    (open_frame clear wire
      ≡ some (ok (record { tag = tag; type = 4; seq = 7 % 2 ^ 32; payload = 65 ∷ 66 ∷ [] })))
    × (length wire ≡ 39 + 2 + 1)
open_frame-seal_example =
    open_frame-seal clear zeros tag 4 7 (65 ∷ 66 ∷ []) (9 ∷ []) wire clear-IsAead refl refl
      (omega arith) bytes sealed

open_frame_total_example : open_frame clear (1 ∷ 2 ∷ []) ≢ none
open_frame_total_example = open_frame_total clear (1 ∷ 2 ∷ [])

-- Too short, and a length field that points past the end.
rejected :
    (parse_inner (1 ∷ 2 ∷ []) ≡ some (err short)) × (parse_inner (take 12 inner) ≡ some (err short))
unfolding parse_inner get_be
rejected = (refl, refl)

abbrev rng : Rng
rng = record { bytes = λ i. i + 3; used = 0 }

abbrev padded : Shaping
padded = record {
  padding = "pad";
  pad_to = pos 1200;
  bucket = pos 0;
  rand_max = pos 0;
  decoy_interval = 0;
  jitter = 0;
}

abbrev bucketed : Shaping
bucketed = record {
  padding = "bucket";
  pad_to = pos 0;
  bucket = pos 128;
  rand_max = pos 0;
  decoy_interval = 0;
  jitter = 0;
}

open_frame_sound_example :
    (padding : Bytes) × (seal clear (take 12 wire) tag 4 7 (65 ∷ 66 ∷ []) padding ≡ some wire)
    × (length tag ≡ 4)
open_frame_sound_example = open_frame_sound clear wire frame clear-IsAead (omega arith) opened
