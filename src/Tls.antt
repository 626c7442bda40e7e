-- ===== src/Tls.antt =====
-- internal/transport/tlsx/tlsx.go: which connections of the listener become tunnels. TLS itself is
-- a parameter: whether the handshake succeeds, the protocol that it negotiates, and the bytes that
-- come out of it. The framing of a tunnel is internal/transport/framed/framed.go.
pub mod Itoa
mod Tests
use Prim.Native.String.{String}
use text.Mathlib.Text.{◌==◌ as str_eq}
use vibe_vpn.Base.{
  ℕ, ◌+◌, ◌≡◌, refl, Bool, true, false, not, ◌&&◌, ◌||◌, Option, none, some, if◌then◌else◌, List,
  [], ◌∷◌, ◌++◌, length, Bytes, arith, take-append, drop-append, length-append,
}
use vibe_vpn.Framed.{read_full, send_frames, receive_frames, receive_frames-send_frames}
use vibe_vpn.Session.Cookie.{bytes_eq}

abbrev pub alpn_tunnel : String
alpn_tunnel = "vibe/1"

abbrev pub alpn_http : String
alpn_http = "http/1.1"

-- "NVPN"
abbrev pub tunnel_magic : Bytes
tunnel_magic = 78 ∷ 86 ∷ 80 ∷ 78 ∷ []

-- The modes of `Dial`; `none` is the error of an unknown fingerprint.
pub data Mode : Type 0 where
  browser legacy : Mode

unfoldable pub dial_mode : String → Option Mode
dial_mode fingerprint =
    if str_eq fingerprint "" || str_eq fingerprint "chrome" || str_eq fingerprint "firefox"
    then some browser
    else if str_eq fingerprint "legacy"
    then some legacy
    else none

-- The protocol that a mode offers, and what it writes before the frames.
unfoldable pub offers : Mode → String
offers browser = alpn_http
offers legacy = alpn_tunnel

unfoldable pub opening : Mode → Bytes
opening browser = tunnel_magic
opening legacy = []

-- What `handleConn` makes of a connection: a tunnel over the bytes that are left, a page of HTML,
-- or nothing.
pub data Served : Type 0 where
  tunnel : Bytes → Served
  page closed : Served

-- `accepts` is what `onConn` returns, or false where there is none.
unfoldable pub accept_tunnel : Bool → Bytes → Served
accept_tunnel accepts stream = if accepts then tunnel stream else closed

unfoldable pub read_magic : Bool → Bytes → Served
unfolding accept_tunnel
read_magic accepts stream = elim (read_full 4 stream) [
  | none ↦ closed
  | some (magic, rest) ↦ if bytes_eq magic tunnel_magic then accept_tunnel accepts rest else page
]

unfoldable pub handle_conn : Bool → Bool → Bool → String → Bytes → Served
unfolding read_magic
handle_conn is_tls shakes accepts negotiated stream =
    if not is_tls
    then closed
    else if not shakes
    then closed
    else if str_eq negotiated alpn_tunnel
    then accept_tunnel accepts stream
    else read_magic accepts stream

-- The frames that a client sends in one of the modes of `Dial` over its connection reach the
-- tunnel of the server, in their order and with nothing left, where TLS negotiates the only
-- protocol that the client offers and the server accepts the tunnel.
pub handle_conn-dial_mode :
    (fingerprint : String) (mode : Mode) (frames : List Bytes) (stream : Bytes)
    → dial_mode fingerprint ≡ some mode
    → send_frames frames ≡ some stream
    → (rest : Bytes) × (handle_conn true true true (offers mode) (opening mode ++ stream)
        ≡ tunnel rest)
      × (receive_frames (length frames) (rest ++ []) ≡ some (frames, []))
unfolding handle_conn read_magic accept_tunnel offers opening
handle_conn-dial_mode fingerprint browser frames stream d s =
    (stream, ground arith, receive_frames-send_frames frames stream [] s)
handle_conn-dial_mode fingerprint legacy frames stream d s =
    (stream, ground arith, receive_frames-send_frames frames stream [] s)
