-- ===== src/Startup/Reload.antt =====
-- `parsePeers` of cmd/vpn/server.go, and the reload of the allowlist that SIGHUP asks for. The map
-- of peers is the list of its keys, which are texts; the manager's model has a number for a text,
-- and `number` is that number.
use vibe_vpn.Base.{
  ℕ, ◌≡◌, ◌↔◌, ◌⊎◌, inl, inr, ap, ◌∙◌, true, false, Option, none, some, ◌==◌, List, [], ◌∷◌, map,
  Bytes, AreBytes, Result, ok, err, arith, Result-cases, Option-cases, subst, Bool-cases,
}
use vibe_vpn.Crypto.{Primitives, ArePrimitives, KeyError, encode_key, decode_key, ◌>>=◌}
use vibe_vpn.Session.Manager.{Manager}
use vibe_vpn.Session.Manager.Adopt.{allow_peer, set_peers, member}

module _ (p : Primitives) where
  unfoldable pub parse_peers : List Bytes → Result KeyError (List Bytes)
  parse_peers [] = ok []
  parse_peers (s ∷ list) =
      decode_key p s >>= λ key. parse_peers list >>= λ peers. ok (encode_key p key ∷ peers)

  -- `loaded` is what config.Load gives: an error, a file without a server section, or the peers.
  unfoldable pub reload : (Bytes → ℕ) → Option (Option (List Bytes)) → Manager → Manager
  unfolding parse_peers
  reload number none m = m
  reload number (some none) m = m
  reload number (some (some list)) m = elim (parse_peers list) [
    | err e ↦ m
    | ok peers ↦ set_peers m (map number peers)
  ]

  -- One of the texts of the list is a text of the key.
  abbrev pub Lists : Bytes → List Bytes → Type 0
  Lists key [] = true ≡ false
  Lists key (s ∷ list) = (decode_key p s ≡ ok key) ⊎ Lists key list

  -- Base64 decodes to bytes.
  abbrev pub DecodesToBytes : Type 0
  DecodesToBytes = (s b : Bytes) → p.unbase64 s ≡ some b → AreBytes b

  decode-AreBytes : (s k : Bytes) → DecodesToBytes → decode_key p s ≡ ok k → AreBytes k
  unfolding decode_key
  decode-AreBytes s k d e = elim (Option-cases (p.unbase64 s)) [
    | inl bad ↦ absurd (ground arith)
    | inr (b, u) ↦ let same : b ≡ k = ground arith in subst AreBytes same (d s b u)
  ]

  encode_injective :
      (a b : Bytes)
      → ArePrimitives p
      → AreBytes a
      → AreBytes b
      → encode_key p a ≡ encode_key p b
      → a ≡ b
  encode_injective a b good ha hb same = ground (arith, good.decodes a ha, good.decodes b hb)

module _ (p : Primitives) (good : ArePrimitives p) (bytes : DecodesToBytes p) (number : Bytes → ℕ)
    (key : Bytes)
    (numbers : (text : Bytes) → number text ≡ number (encode_key p key) → text ≡ encode_key p key)
    (hk : AreBytes key) where
  member-Lists :
      (list peers : List Bytes)
      → parse_peers p list ≡ ok peers
      → (member (map number peers) (number (encode_key p key)) ≡ true) ↔ Lists p key list
  unfolding parse_peers
  member-Lists [] peers e = ((λ h. absurd (ground arith)), (λ h. absurd (ground arith)))
  member-Lists (s ∷ list) peers e = elim (Result-cases (decode_key p s)) [
    | inr (why, d) ↦ absurd (ground arith)
    | inl (k, d) ↦ elim (Result-cases (parse_peers p list)) [
      | inr (why, rest) ↦ absurd (ground arith)
      | inl (others, rest) ↦
          let same : encode_key p k ∷ others ≡ peers = ground arith in
          let (sound, complete) = member-Lists list others rest in
          elim (Bool-cases (number (encode_key p k) == number (encode_key p key))) [
            | inl hit ↦
                let text = numbers (encode_key p k) (ground arith) in
                let found : k ≡ key =
                  encode_injective p k key good (decode-AreBytes p s k bytes d) hk text in
                (λ _. inl (d ∙ ap ok found), λ _. ground arith)
            | inr miss ↦ (
              λ h. inr (sound (ground arith)),
              λ h. elim h [
                | inl here ↦ absurd (ground arith)
                | inr there ↦ ground (arith, complete there)
              ],
            )
          ]
    ]
  ]

  reload-member :
      (m : Manager) (s : Bytes) (list peers : List Bytes) (k : ℕ)
      → parse_peers p (s ∷ list) ≡ ok peers
      → allow_peer (reload p number (some (some (s ∷ list))) m) k ≡ member (map number peers) k
  unfolding reload parse_peers allow_peer set_peers
  reload-member m s list peers k e = elim (Result-cases (decode_key p s)) [
    | inr (why, d) ↦ absurd (ground arith)
    | inl (first, d) ↦ elim (Result-cases (parse_peers p list)) [
      | inr (why, rest) ↦ absurd (ground arith)
      | inl (others, rest) ↦
          let same : encode_key p first ∷ others ≡ peers = ground arith in
          rw (← same) (ground arith)
    ]
  ]

  -- After a reload of a list that is not empty and whose texts all decode, a client is let in
  -- exactly if a text of the list is a text of its key.
  pub reload-allow_peer :
      (m : Manager) (s : Bytes) (list peers : List Bytes)
      → parse_peers p (s ∷ list) ≡ ok peers
      → (allow_peer (reload p number (some (some (s ∷ list))) m) (number (encode_key p key)) ≡ true)
        ↔ Lists p key (s ∷ list)
  reload-allow_peer m s list peers e =
      rw (reload-member m s list peers (number (encode_key p key)) e)
        (member-Lists (s ∷ list) peers e)
