-- ===== src/Setup/Peer.antt =====
-- `readPeer` of cmd/vpn/setup.go, and the text of peer.txt that `setupServerDir` writes for it. A
-- text is its bytes; strings.TrimSpace is a parameter.
mod Tests
use vibe_vpn.Base.{
  ℕ, ◌≡◌, ◌≢◌, ◌≤◌, refl, Bool, true, false, ◌||◌, Option, none, some, ◌==◌, if◌then◌else◌, List,
  [], ◌∷◌, ◌++◌, length, Bytes, All, arith, ap, ◌∙◌, Option-cases, inl, inr,
}
use vibe_vpn.Crypto.{trim_prefix, push_char}

-- '\n'
abbrev newline : ℕ
newline = 10

-- "domain="
abbrev pub domain_prefix : Bytes
domain_prefix = 100 ∷ 111 ∷ 109 ∷ 97 ∷ 105 ∷ 110 ∷ 61 ∷ []

-- "public_key="
abbrev pub key_prefix : Bytes
key_prefix = 112 ∷ 117 ∷ 98 ∷ 108 ∷ 105 ∷ 99 ∷ 95 ∷ 107 ∷ 101 ∷ 121 ∷ 61 ∷ []

-- strings.Split at a newline.
abbrev pub split_lines : Bytes → List Bytes
split_lines [] = [] ∷ []
split_lines (c ∷ b) = if c == newline then [] ∷ split_lines b else push_char c (split_lines b)

unfoldable pub peer_text : Bytes → Bytes → Bytes
peer_text domain key =
    (domain_prefix ++ domain) ++ (newline ∷ ((key_prefix ++ key) ++ (newline ∷ [])))

-- Visible ASCII.
abbrev pub IsGraphic : Bytes → Type 0
IsGraphic = All (λ c. (33 ≤ c) × (c ≤ 126))

-- The switch of the loop: the domain and the key so far, and a line without its white space.
unfoldable pub peer_line : Bytes × Bytes → Bytes → Bytes × Bytes
peer_line (domain, key) line = elim (trim_prefix domain_prefix line) [
  | some d ↦ (d, key)
  | none ↦ elim (trim_prefix key_prefix line) [ some k ↦ (domain, k) | none ↦ (domain, key) ]
]

module _ (trim_space : Bytes → Bytes) where
  unfoldable pub peer_lines : Bytes × Bytes → List Bytes → Bytes × Bytes
  peer_lines found [] = found
  peer_lines found (line ∷ lines) = peer_lines (peer_line found (trim_space line)) lines

  -- The file's content, if it can be read.
  unfoldable pub read_peer : Option Bytes → Option (Bytes × Bytes)
  unfolding peer_lines
  read_peer none = none
  read_peer (some raw) =
      let (domain, key) = peer_lines ([], []) (split_lines raw) in
      if length domain == 0 || length key == 0 then none else some (domain, key)

split_lines-append :
    (a b : Bytes) → IsGraphic a → split_lines (a ++ (newline ∷ b)) ≡ a ∷ split_lines b
split_lines-append [] b h = refl
split_lines-append (c ∷ a) b h = ground (arith, split_lines-append a b h.1)

trim_prefix-append : (p b : Bytes) → trim_prefix p (p ++ b) ≡ some b
trim_prefix-append [] b = refl
trim_prefix-append (x ∷ p) b = ground (arith, trim_prefix-append p b)

-- What TrimSpace does to a text without white space: nothing.
abbrev pub Trims : (Bytes → Bytes) → Type 0
Trims trim_space = (b : Bytes) → IsGraphic b → trim_space b ≡ b

module _ (trim_space : Bytes → Bytes) (trims : Trims trim_space) where
  domain_line :
      (found : Bytes × Bytes) (d : Bytes)
      → IsGraphic d
      → peer_line found (trim_space (domain_prefix ++ d)) ≡ (d, found.1)
  unfolding peer_line
  domain_line (d0, k0) d hd =
      ap (peer_line (d0, k0)) (trims (domain_prefix ++ d) (ground (arith, hd)))

  key_line :
      (found : Bytes × Bytes) (k : Bytes)
      → IsGraphic k
      → peer_line found (trim_space (key_prefix ++ k)) ≡ (found.0, k)
  unfolding peer_line
  key_line (d0, k0) k hk = ap (peer_line (d0, k0)) (trims (key_prefix ++ k) (ground (arith, hk)))

  last_line : (found : Bytes × Bytes) → peer_line found (trim_space []) ≡ found
  unfolding peer_line
  last_line (d0, k0) = ap (peer_line (d0, k0)) (trims [] tt)

  found_lines :
      (domain key : Bytes)
      → IsGraphic domain
      → IsGraphic key
      → peer_lines trim_space ([], []) (split_lines (peer_text domain key)) ≡ (domain, key)
  unfolding peer_lines peer_text
  found_lines domain key hd hk =
      let rest : Bytes = (key_prefix ++ key) ++ (newline ∷ []) in
      let first = split_lines-append (domain_prefix ++ domain) rest (ground (arith, hd)) in
      let second = split_lines-append (key_prefix ++ key) [] (ground (arith, hk)) in
      let lines = first ∙ ap (λ (more : List Bytes). (domain_prefix ++ domain) ∷ more) second in
      let last : Bytes = trim_space [] in
      ap (peer_lines trim_space ([], [])) lines
      ∙ ap (λ (f : Bytes × Bytes). peer_line (peer_line f (trim_space (key_prefix ++ key))) last)
          (domain_line ([], []) domain hd)
      ∙ ap (λ (f : Bytes × Bytes). peer_line f last) (key_line (domain, []) key hk)
      ∙ last_line (domain, key)

  -- What the setup of a server writes into peer.txt, the setup of a client reads there: a domain
  -- and a key that are not empty and have visible ASCII characters only.
  pub read_peer-peer_text :
      (domain key : Bytes)
      → IsGraphic domain
      → IsGraphic key
      → domain ≢ []
      → key ≢ []
      → read_peer trim_space (some (peer_text domain key)) ≡ some (domain, key)
  unfolding read_peer
  read_peer-peer_text [] key hd hk some_domain some_key = absurd (some_domain refl)
  read_peer-peer_text (c ∷ domain) [] hd hk some_domain some_key = absurd (some_key refl)
  read_peer-peer_text (c ∷ domain) (d ∷ key) hd hk some_domain some_key =
      ground (arith, found_lines (c ∷ domain) (d ∷ key) hd hk)
