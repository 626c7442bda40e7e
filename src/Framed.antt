-- ===== src/Framed.antt =====
-- internal/transport/framed/framed.go: frames on a byte stream, each behind its length in four
-- bytes. What is left to read of a connection is a list of bytes.
mod Tests
use vibe_vpn.Base.{
  ℕ, zero, suc, ◌+◌, ◌-◌, ◌*◌, ◌/◌, ◌%◌, ◌^◌, ◌≡◌, ◌≢◌, ◌≤◌, ◌<◌, Bool, true, false, ◌||◌, Option,
  none, some, ◌==◌, ltb, leb, if◌then◌else◌, List, [], ◌∷◌, ◌++◌, length, take, drop, Bytes,
  put_u32, get_be, get_be-put_u32, All, arith, refl, take-append, drop-append, length-append,
  Bool-cases, inl, inr, Option-cases,
}
use mathlib.Core.List.{append_assoc}
use vibe_vpn.Base.Panic.{◌>>=◌}

abbrev pub max_frame : ℕ
max_frame = 65535

-- What `Send` writes to the connection; `none` is ErrTooLarge, with nothing written.
unfoldable pub send_frame : Bytes → Option Bytes
send_frame b =
    if length b == 0 || ltb max_frame (length b) then none else some (put_u32 (length b) ++ b)

-- io.ReadFull: the next `n` bytes and what is left, or an error at the end of the stream.
abbrev pub read_full : ℕ → Bytes → Option (Bytes × Bytes)
read_full n stream = if leb n (length stream) then some (take n stream, drop n stream) else none

read_body : ℕ → Bytes → Option (Bytes × Bytes)
read_body n stream = if n == 0 || ltb max_frame n then none else read_full n stream

unfoldable pub receive_frame : Bytes → Option (Bytes × Bytes)
unfolding read_body
receive_frame stream = do (hdr, rest) ← read_full 4 stream; read_body (get_be hdr) rest

-- Frames one after the other on one connection.
unfoldable pub send_frames : List Bytes → Option Bytes
send_frames [] = some []
send_frames (b ∷ bs) = do first ← send_frame b; rest ← send_frames bs; some (first ++ rest)

unfoldable pub receive_frames : ℕ → Bytes → Option (List Bytes × Bytes)
receive_frames zero stream = some ([], stream)
receive_frames (suc n) stream = do
  (b, rest) ← receive_frame stream
  (bs, left) ← receive_frames n rest
  some (b ∷ bs, left)

read_body-append :
    (b rest : Bytes)
    → 0 < length b
    → length b ≤ max_frame
    → read_body (length b) (b ++ rest) ≡ some (b, rest)
unfolding read_body
read_body-append b rest h k =
    ground
      (arith, length-append b rest, take-append (length b) b rest, drop-append (length b) b rest)

receive_frame-send_frame :
    (b wire rest : Bytes) → send_frame b ≡ some wire → receive_frame (wire ++ rest) ≡ some (b, rest)
unfolding send_frame receive_frame
receive_frame-send_frame b wire rest e =
    let fits : (0 < length b) × (length b ≤ max_frame) = ground arith in
    let w : put_u32 (length b) ++ b ≡ wire = ground arith in
    rw (← w) (ground (arith, get_be-put_u32 (length b), read_body-append b rest))

-- Whatever frames were sent, the receiver reads them in the same order and stops at the byte
-- behind the last one.
pub receive_frames-send_frames :
    (bs : List Bytes) (stream rest : Bytes)
    → send_frames bs ≡ some stream
    → receive_frames (length bs) (stream ++ rest) ≡ some (bs, rest)
unfolding send_frames receive_frames
receive_frames-send_frames [] stream rest e = ground arith
receive_frames-send_frames (b ∷ bs) stream rest e = elim (Option-cases (send_frame b)) [
  | inl bad ↦ absurd (ground arith)
  | inr (first, sent) ↦ elim (Option-cases (send_frames bs)) [
    | inl bad ↦ absurd (ground arith)
    | inr (more, others) ↦
        let w : first ++ more ≡ stream = ground arith in
        rw
          (
            ← w,
            append_assoc first more rest,
            receive_frame-send_frame b first (more ++ rest) sent,
            receive_frames-send_frames bs more rest others,
          )
          refl
  ]
]
