-- ===== src/Setup/Peer/Tests.antt =====
-- A peer.txt.
use vibe_vpn.Base.{◌≡◌, refl, some, none, [], ◌∷◌, Bytes, arith}
use vibe_vpn.Setup.Peer.{
  IsGraphic, peer_line, peer_lines, peer_text, read_peer, read_peer-peer_text,
}

-- "v.eu" and "QUJD"
abbrev domain : Bytes
domain = 118 ∷ 46 ∷ 101 ∷ 117 ∷ []

abbrev key : Bytes
key = 81 ∷ 85 ∷ 74 ∷ 68 ∷ []

domain-IsGraphic : IsGraphic domain
domain-IsGraphic = ground arith

key-IsGraphic : IsGraphic key
key-IsGraphic = ground arith

read_peer-peer_text_example : read_peer (λ b. b) (some (peer_text domain key)) ≡ some (domain, key)
read_peer-peer_text_example =
    read_peer-peer_text (λ b. b) (λ b h. refl) domain key domain-IsGraphic key-IsGraphic
      (λ e. absurd (ground arith)) (λ e. absurd (ground arith))

-- A file without a key.
incomplete : read_peer (λ b. b) (some (100 ∷ 111 ∷ 109 ∷ [])) ≡ none
unfolding read_peer peer_lines peer_line
incomplete = refl
