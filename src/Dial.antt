-- ===== src/Dial.antt =====
-- `clientDial` and `tlsDialer` of cmd/vpn/client.go, over the configuration: which transports the
-- client tries, and in which order. Reading a CA file and splitting host:port are parameters.
mod Tests
use Prim.Native.String.{String}
use text.Mathlib.Text.{◌==◌ as str_eq}
use vibe_vpn.Base.{
  ℕ, ◌≡◌, ◌≢◌, refl, Bool, true, false, not, ◌&&◌, ◌||◌, Option, none, some, if◌then◌else◌, List,
  [], ◌∷◌, ◌++◌, All, All-append, arith, Option-cases, Bool-cases, inl, inr, ◌⊎◌,
}
use vibe_vpn.Base.Panic.{◌>>=◌}
use vibe_vpn.Config.{Checks, ClientConfig, ClientTls, validate_client, client_tls}

-- `loads` says whether LoadCertPool succeeds, `split_host` is net.SplitHostPort's host.
pub record Files : Type 0 where
  pub loads : String → Bool
  pub split_host : String → Option String

-- The arguments of tlsx.Dial; `roots` is the file of the pool.
pub record TlsDial : Type 0 where
  pub addr : String
  pub server_name : String
  pub roots : Option String
  pub insecure : Bool
  pub fingerprint : String

pub data Dialer : Type 0 where
  tls : TlsDial → Dialer
  raw : String → Dialer
  udp : String → Dialer

-- The pool and `insecure`.
unfoldable pub tls_roots : Files → ClientTls → Option (Option String × Bool)
tls_roots files t =
    if not (str_eq t.ca "")
    then (if files.loads t.ca then some (some t.ca, false) else none)
    else some (none, t.insecure)

unfoldable pub tls_name : Files → String → ClientTls → Option String
tls_name files server t =
    if str_eq t.server_name "" then files.split_host server else some t.server_name

abbrev pub has_roots : Option String → Bool
has_roots none = false
has_roots (some s) = true

unfoldable pub verified_dialer : String → ClientTls → Option String → Bool → String → Option Dialer
verified_dialer server t roots insecure name =
    if not (has_roots roots) && not insecure
    then none
    else some (
        tls (record {
          addr = server;
          server_name = name;
          roots = roots;
          insecure = insecure;
          fingerprint = if str_eq t.fingerprint "" then "chrome" else t.fingerprint;
        }))

unfoldable pub tls_dialer : Files → String → ClientTls → Option Dialer
tls_dialer files server t = do
  (roots, insecure) ← tls_roots files t
  name ← tls_name files server t
  verified_dialer server t roots insecure name

unfoldable pub tls_dialers : Files → String → Option ClientTls → Option (List Dialer)
tls_dialers files server none = some []
tls_dialers files server (some t) = do d ← tls_dialer files server t; some (d ∷ [])

abbrev pub non_empty : {A : Type 0} → List A → Option (List A)
non_empty [] = none
non_empty (x ∷ xs) = some (x ∷ xs)

unfoldable pub raw_dialers : ClientConfig → List Dialer
raw_dialers c = if str_eq c.raw_server "" then [] else raw c.raw_server ∷ []

unfoldable pub udp_dialers : ClientConfig → List Dialer
udp_dialers c =
    let sel = c.common.transport in
    if not (str_eq sel "raw") && not (str_eq sel "tls")
    then (if str_eq c.server "" then [] else udp c.server ∷ [])
    else []

-- `none` is an error.
unfoldable pub client_dial : Files → ClientConfig → Option (List Dialer)
client_dial files c = do
  first ← tls_dialers files c.server c.tls
  non_empty (first ++ (raw_dialers c ++ udp_dialers c))

-- The function that `clientDial` returns: the first transport that connects.
unfoldable pub dial_first : {T : Type 0} → (Dialer → Option T) → List Dialer → Option T
dial_first dial [] = none
dial_first dial (d ∷ ds) =
    let rest = dial_first dial ds in elim (dial d) [ some t ↦ some t | none ↦ rest ]

-- When the client connects, it does so over one of its transports, and all that come before this
-- one have failed; when it does not, all have failed.
pub dial_first_order :
    {T : Type 0} (dial : Dialer → Option T) (ds : List Dialer)
    → ((dial_first dial ds ≡ none) × All (λ d. dial d ≡ none) ds)
      ⊎ ((before : List Dialer) × (d : Dialer) × (after : List Dialer) × (ds
            ≡ before ++ (d ∷ after))
          × All (λ e. dial e ≡ none) before
          × (dial_first dial ds ≡ dial d)
          × (dial d ≢ none))
unfolding dial_first
dial_first_order dial [] = inl (refl, tt)
dial_first_order dial (d ∷ ds) = elim (Option-cases (dial d)) [
  | inr (t, e) ↦ inr ([], d, ds, refl, tt, ground arith, ground arith)
  | inl e ↦ elim (dial_first_order dial ds) [
    | inl (bad, every) ↦ inl (ground arith, (e, every))
    | inr (before, d', after, same, every, r, good) ↦
        inr (d ∷ before, d', after, ground arith, (e, every), ground arith, good)
  ]
]

-- What is to hold of a dialer: TLS without a pool of roots only where the configuration says so.
abbrev pub IsVerified : Option ClientTls → Dialer → Type 0
IsVerified t (raw addr) = true ≡ true
IsVerified t (udp addr) = true ≡ true
IsVerified t (tls d) =
    ((ca : String) × (d.roots ≡ some ca) × (d.insecure ≡ false))
    ⊎ ((c : ClientTls) × (t ≡ some c) × (c.insecure ≡ true) × (str_eq c.ca "" ≡ true))

verified_dialer-IsVerified :
    (files : Files) (server name : String) (t : ClientTls) (roots : Option String) (insecure : Bool)
    (d : Dialer)
    → tls_roots files t ≡ some (roots, insecure)
    → verified_dialer server t roots insecure name ≡ some d
    → IsVerified (some t) d
unfolding verified_dialer tls_roots
verified_dialer-IsVerified files server name t none insecure (tls d) r e =
    inr (t, refl, ground arith, ground arith)
verified_dialer-IsVerified files server name t (some ca) insecure (tls d) r e =
    inl (ca, ground arith, ground arith)
verified_dialer-IsVerified files server name t roots insecure (raw addr) r e = refl
verified_dialer-IsVerified files server name t roots insecure (udp addr) r e = refl

tls_dialer-IsVerified :
    (files : Files) (server : String) (t : ClientTls) (d : Dialer)
    → tls_dialer files server t ≡ some d
    → IsVerified (some t) d
unfolding tls_dialer
tls_dialer-IsVerified files server t d e = elim (Option-cases (tls_roots files t)) [
  | inl bad ↦ absurd (ground arith)
  | inr ((roots, insecure), r) ↦ elim (Option-cases (tls_name files server t)) [
    | inl bad ↦ absurd (ground arith)
    | inr (name, n) ↦
        verified_dialer-IsVerified files server name t roots insecure d r (ground arith)
  ]
]

tls_dialers-IsVerified :
    (files : Files) (server : String) (t : Option ClientTls) (ds : List Dialer)
    → tls_dialers files server t ≡ some ds
    → All (IsVerified t) ds
unfolding tls_dialers
tls_dialers-IsVerified files server none ds e = let same : [] ≡ ds = ground arith in rw (← same) tt
tls_dialers-IsVerified files server (some t) ds e =
    elim (Option-cases (tls_dialer files server t)) [
      | inl bad ↦ absurd (ground arith)
      | inr (d, made) ↦
          let same : d ∷ [] ≡ ds = ground arith in
          rw (← same) (tls_dialer-IsVerified files server t d made, tt)
    ]

if_some :
    (b : Bool) (t : Option ClientTls) (ds : List Dialer)
    → All (IsVerified t) ds
    → All (IsVerified t) (if b then ds else [])
if_some true t ds h = h
if_some false t ds h = tt

if_none :
    (b : Bool) (t : Option ClientTls) (ds : List Dialer)
    → All (IsVerified t) ds
    → All (IsVerified t) (if b then [] else ds)
if_none true t ds h = tt
if_none false t ds h = h

raw_dialers-IsVerified :
    (c : ClientConfig) (t : Option ClientTls) → All (IsVerified t) (raw_dialers c)
unfolding raw_dialers
raw_dialers-IsVerified c t = if_none (str_eq c.raw_server "") t (raw c.raw_server ∷ []) (refl, tt)

udp_dialers-IsVerified :
    (c : ClientConfig) (t : Option ClientTls) → All (IsVerified t) (udp_dialers c)
unfolding udp_dialers
udp_dialers-IsVerified c t =
    let sel = c.common.transport in
    let ds : List Dialer = if str_eq c.server "" then [] else udp c.server ∷ [] in
    if_some (not (str_eq sel "raw") && not (str_eq sel "tls")) t ds
      (if_none (str_eq c.server "") t (udp c.server ∷ []) (refl, tt))

-- Whatever transports the client may connect over, TLS is used without a pool of roots only where
-- the configuration asks for it and names no CA; with a CA the certificate is always verified.
pub client_dial-IsVerified :
    (files : Files) (c : ClientConfig) (ds : List Dialer)
    → client_dial files c ≡ some ds
    → All (IsVerified c.tls) ds
unfolding client_dial
client_dial-IsVerified files c ds e = elim (Option-cases (tls_dialers files c.server c.tls)) [
  | inl bad ↦ absurd (ground arith)
  | inr (first, made) ↦
      let same : first ++ (raw_dialers c ++ udp_dialers c) ≡ ds = ground arith in
      rw (← same) (
        All-append (IsVerified c.tls) first (raw_dialers c ++ udp_dialers c)
          (tls_dialers-IsVerified files c.server c.tls first made)
          (All-append (IsVerified c.tls) (raw_dialers c) (udp_dialers c)
            (raw_dialers-IsVerified c c.tls) (udp_dialers-IsVerified c c.tls)))
]
