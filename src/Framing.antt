-- ===== src/Framing.antt =====
-- internal/framing/framing.go: the wire format of session messages. The outer `none` is a panic.
pub mod Parse
pub mod RoundTrip
pub mod Shaping
pub mod Padding
mod Tests
use vibe_vpn.Base.{
  ℕ, ◌+◌, ◌%◌, ◌^◌, ◌≤◌, ◌<◌, ◌≡◌, Option, none, some, List, [], ◌∷◌, ◌++◌, Bytes, Result, ok, err,
  get_elem?, slice, get_be, put_u16, put_u32, length, take, drop, ltb, leb, if◌then◌else◌,
}
use vibe_vpn.Base.Panic.{◌>>=◌}
use vibe_vpn.Aead.{Aead}

abbrev pub nonce_len : ℕ
nonce_len = 12

abbrev pub tag_len : ℕ
tag_len = 16

abbrev pub inner_header_len : ℕ
inner_header_len = 11

abbrev pub max_wire : ℕ
max_wire = 65507

pub data Error : Type 0 where
  short auth : Error

pub record Frame : Type 0 where
  pub tag : Bytes
  pub type : ℕ
  pub seq : ℕ
  pub payload : Bytes

-- What `Seal` writes behind the nonce before it encrypts: the header, the payload, the padding.
-- The two conversions of the source cut the numbers to 32 and 16 bits.
unfoldable pub inner_plaintext : Bytes → ℕ → ℕ → Bytes → Bytes → Bytes
inner_plaintext tag typ seq payload padding =
    tag
    ++ (typ
        ∷ (put_u32 (seq % 2 ^ 32) ++ (put_u16 (length payload % 2 ^ 16) ++ (payload ++ padding))))

-- The pooled buffer has room for `max_wire` bytes, and slicing past that panics. `nonce` is what
-- crypto/rand puts into its first 12 bytes; the ciphertext takes the place of the plaintext.
unfoldable pub seal : Aead → Bytes → Bytes → ℕ → ℕ → Bytes → Bytes → Option Bytes
seal aead nonce tag typ seq payload padding =
    let plen = inner_header_len + length payload + length padding in
    let ct = aead.seal nonce (inner_plaintext tag typ seq payload padding) in
    if leb (nonce_len + plen + tag_len) max_wire then some (nonce ++ ct) else none

or_auth : Option Bytes → Result Error Bytes
or_auth none = err auth
or_auth (some inner) = if ltb (length inner) inner_header_len then err short else ok inner

unfoldable pub open_into : Aead → Bytes → Result Error Bytes
unfolding or_auth
open_into aead wire =
    if ltb (length wire) (nonce_len + tag_len)
    then err short
    else or_auth (aead.unseal (take nonce_len wire) (drop nonce_len wire))

read_frame : Bytes → Option (Result Error Frame)
read_frame inner = do
  tag ← slice 0 4 inner
  typ ← get_elem? inner 4
  seq ← slice 5 9 inner
  field ← slice 9 11 inner
  let plen = get_be field
  let payload = slice inner_header_len (inner_header_len + plen) inner
  if ltb (length inner) (inner_header_len + plen)
      then some (err short)
      else payload >>= λ p.
          some (ok (record { tag = tag; type = typ; seq = get_be seq; payload = p }))

unfoldable pub parse_inner : Bytes → Option (Result Error Frame)
unfolding read_frame
parse_inner inner =
    if ltb (length inner) inner_header_len then some (err short) else read_frame inner

opened : Result Error Bytes → Option (Result Error Frame)
opened (err e) = some (err e)
opened (ok inner) = parse_inner inner

unfoldable pub open_frame : Aead → Bytes → Option (Result Error Frame)
unfolding opened
open_frame aead wire = opened (open_into aead wire)
