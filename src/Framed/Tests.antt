-- ===== src/Framed/Tests.antt =====
-- Two frames on one stream.
use vibe_vpn.Base.{◌≡◌, refl, none, some, List, [], ◌∷◌, Bytes}
use vibe_vpn.Framed.{send_frame, send_frames}

abbrev frames : List Bytes
frames = (7 ∷ 8 ∷ []) ∷ (9 ∷ []) ∷ []

abbrev stream : Bytes
stream = 0 ∷ 0 ∷ 0 ∷ 2 ∷ 7 ∷ 8 ∷ 0 ∷ 0 ∷ 0 ∷ 1 ∷ 9 ∷ []

sent : send_frames frames ≡ some stream
unfolding send_frames send_frame
sent = refl

empty : send_frame [] ≡ none
unfolding send_frame
empty = refl
