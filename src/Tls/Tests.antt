-- ===== src/Tls/Tests.antt =====
-- Two frames of a client that looks like a browser, and a number as text.
use vibe_vpn.Base.{◌≡◌, refl, true, some, List, [], ◌∷◌, ◌++◌, Bytes}
use vibe_vpn.Framed.{send_frame, send_frames, receive_frames}
use vibe_vpn.Tls.{
  browser, dial_mode, offers, opening, tunnel, handle_conn, page, handle_conn-dial_mode, read_magic,
}

abbrev frames : List Bytes
frames = (1 ∷ 2 ∷ []) ∷ (3 ∷ []) ∷ []

abbrev stream : Bytes
stream = 0 ∷ 0 ∷ 0 ∷ 2 ∷ 1 ∷ 2 ∷ 0 ∷ 0 ∷ 0 ∷ 1 ∷ 3 ∷ []

chrome : dial_mode "chrome" ≡ some browser
unfolding dial_mode
chrome = refl

sends : send_frames frames ≡ some stream
unfolding send_frames send_frame
sends = refl

handle_conn-dial_mode_example :
    (rest : Bytes) × (handle_conn true true true (offers browser) (opening browser ++ stream)
      ≡ tunnel rest)
    × (receive_frames 2 (rest ++ []) ≡ some (frames, []))
handle_conn-dial_mode_example = handle_conn-dial_mode "chrome" browser frames stream chrome sends

-- Anyone else sees a web page.
other : handle_conn true true true "http/1.1" (71 ∷ 69 ∷ 84 ∷ 32 ∷ 47 ∷ []) ≡ page
unfolding handle_conn read_magic
other = refl
