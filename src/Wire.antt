-- ===== src/Wire.antt =====
-- internal/protocol/wire.go: the message types.
mod Tests
use Prim.Native.String.{String}
use text.Mathlib.Text.{◌==◌ as str_eq}
use vibe_vpn.Base.{ℕ, sym, ap, ◌∙◌, ◌≡◌, ◌⊎◌, Bool, true, false, ◌==◌, if◌then◌else◌, ◌||◌, arith}

abbrev pub msg_handshake1 : ℕ
msg_handshake1 = 0x01

abbrev pub msg_handshake2 : ℕ
msg_handshake2 = 0x02

abbrev pub msg_handshake3 : ℕ
msg_handshake3 = 0x03

abbrev pub msg_data : ℕ
msg_data = 0x04

abbrev pub msg_keepalive : ℕ
msg_keepalive = 0x05

abbrev pub msg_close : ℕ
msg_close = 0x06

abbrev pub msg_rekey1 : ℕ
msg_rekey1 = 0x07

abbrev pub msg_rekey2 : ℕ
msg_rekey2 = 0x08

abbrev pub msg_rekey3 : ℕ
msg_rekey3 = 0x09

abbrev pub msg_assign : ℕ
msg_assign = 0x0A

abbrev pub msg_decoy : ℕ
msg_decoy = 0x0B

abbrev pub msg_cookie : ℕ
msg_cookie = 0x0C

abbrev pub cookie_len : ℕ
cookie_len = 32

abbrev pub max_payload : ℕ
max_payload = 65535

-- The text of a type; `unknown t` is fmt.Sprintf("unknown(%d)", t).
pub data Name : Type 0 where
  known : String → Name
  unknown : ℕ → Name

unfoldable pub type_name : ℕ → Name
type_name t =
    if t == msg_handshake1
    then known "handshake1"
    else if t == msg_handshake2
    then known "handshake2"
    else if t == msg_handshake3
    then known "handshake3"
    else if t == msg_data
    then known "data"
    else if t == msg_keepalive
    then known "keepalive"
    else if t == msg_close
    then known "close"
    else if t == msg_rekey1
    then known "rekey1"
    else if t == msg_rekey2
    then known "rekey2"
    else if t == msg_rekey3
    then known "rekey3"
    else if t == msg_assign
    then known "assign"
    else if t == msg_decoy
    then known "decoy"
    else if t == msg_cookie
    then known "cookie"
    else unknown t

unfoldable pub is_handshake : ℕ → Bool
is_handshake t = t == msg_handshake1 || t == msg_handshake2 || t == msg_handshake3

unfoldable pub is_rekey : ℕ → Bool
is_rekey t = t == msg_rekey1 || t == msg_rekey2 || t == msg_rekey3

-- The number behind a name.
number : Name → ℕ
number (unknown t) = t
number (known s) =
    if str_eq s "handshake1"
    then msg_handshake1
    else if str_eq s "handshake2"
    then msg_handshake2
    else if str_eq s "handshake3"
    then msg_handshake3
    else if str_eq s "data"
    then msg_data
    else if str_eq s "keepalive"
    then msg_keepalive
    else if str_eq s "close"
    then msg_close
    else if str_eq s "rekey1"
    then msg_rekey1
    else if str_eq s "rekey2"
    then msg_rekey2
    else if str_eq s "rekey3"
    then msg_rekey3
    else if str_eq s "assign"
    then msg_assign
    else if str_eq s "decoy"
    then msg_decoy
    else msg_cookie

number-type_name : (t : ℕ) → number (type_name t) ≡ t
unfolding type_name number
number-type_name t = ground arith

-- Two message types with the same name are the same type.
pub type_name-injective : (a b : ℕ) → type_name a ≡ type_name b → a ≡ b
type_name-injective a b e = sym (number-type_name a) ∙ ap number e ∙ number-type_name b
