-- ===== src/Session/Cookie.antt =====
-- The cookies of internal/session/server.go (`requireCookie`, `cookieFor`, `validCookie`) and of
-- internal/crypto/keyencrypt.go (`MakeCookie`, `CheckCookie`). HMAC-SHA256 is a parameter `mac`
-- of a secret and a text; an address is named by its number under the rate limit and by its bytes
-- under the MAC. Times are in nanoseconds, `now / second` is the Unix time.
mod Tests
use vibe_vpn.Base.{
  ℕ, zero, suc, ◌+◌, ◌-◌, ◌*◌, ◌/◌, ◌%◌, ◌^◌, ◌≡◌, ◌≤◌, ◌<◌, Bool, true, false, ◌||◌, Option, none,
  some, ◌==◌, ltb, leb, if◌then◌else◌, List, [], ◌∷◌, ◌++◌, length, Bytes, put_u32, take, arith,
  refl, ◌⊎◌, inl, inr, Bool-cases, Option-cases,
}
use vibe_vpn.Session.Pool.{update}

abbrev pub second : ℕ
second = 1000000000

abbrev pub handshake_rate_limit : ℕ
handshake_rate_limit = 20

abbrev pub handshake_rate_window : ℕ
handshake_rate_window = 10 * second

abbrev pub cookie_window_seconds : ℕ
cookie_window_seconds = 3600

pub record RateBucket : Type 0 where
  pub count : ℕ
  pub reset : ℕ

counted : (ℕ → Option RateBucket) → ℕ → RateBucket → Bool × (ℕ → Option RateBucket)
counted rate ip b =
    let n = (b.count + 1) % 2 ^ 32 in
    (ltb handshake_rate_limit n, update rate ip (some (record b { count = n })))

unfoldable pub require_cookie : (ℕ → Option RateBucket) → ℕ → ℕ → Bool × (ℕ → Option RateBucket)
unfolding counted
require_cookie rate ip now =
    let fresh : Bool × (ℕ → Option RateBucket) =
      (false, update rate ip (some (record { count = 1; reset = now + handshake_rate_window }))) in
    elim (rate ip) [ none ↦ fresh | some b ↦ if ltb b.reset now then fresh else counted rate ip b ]

-- uint64(window), of a window that may be -1.
abbrev pub put_u64 : ℕ → Bytes
put_u64 n = put_u32 (n / 2 ^ 32) ++ put_u32 (n % 2 ^ 32)

-- copy(out[:], h.Sum(nil)) into 32 bytes; the sum has 32 bytes.
unfoldable pub make_cookie : (Bytes → Bytes → Bytes) → Bytes → Bytes → ℕ → Bytes
make_cookie mac secret ip window = take 32 (mac secret (put_u64 window ++ ip))

abbrev pub bytes_eq : Bytes → Bytes → Bool
bytes_eq [] [] = true
bytes_eq (x ∷ xs) (y ∷ ys) = if x == y then bytes_eq xs ys else false
bytes_eq [] (y ∷ ys) = false
bytes_eq (x ∷ xs) [] = false

unfoldable pub check_cookie : (Bytes → Bytes → Bytes) → Bytes → Bytes → Bytes → ℕ → Bool
unfolding make_cookie
check_cookie mac secret ip cookie window = bytes_eq (make_cookie mac secret ip window) cookie

abbrev pub window_of : ℕ → ℕ
window_of now = now / second / cookie_window_seconds

unfoldable pub cookie_for : (Bytes → Bytes → Bytes) → Bytes → Bytes → ℕ → Bytes
unfolding make_cookie
cookie_for mac secret ip now = make_cookie mac secret ip (window_of now)

-- int64 `win - 1`, as the 64 bits that go into the MAC.
unfoldable pub valid_cookie : (Bytes → Bytes → Bytes) → Bytes → Bytes → Bytes → ℕ → Bool
unfolding check_cookie
valid_cookie mac secret ip cookie now =
    check_cookie mac secret ip cookie (window_of now)
    || check_cookie mac secret ip cookie ((window_of now + (2 ^ 64 - 1)) % 2 ^ 64)

bytes_eq_refl : (b : Bytes) → bytes_eq b b ≡ true
bytes_eq_refl [] = refl
bytes_eq_refl (x ∷ b) = ground (arith, bytes_eq_refl b)

pub bytes_eq_sound : (a b : Bytes) → bytes_eq a b ≡ true → a ≡ b
bytes_eq_sound [] [] e = refl
bytes_eq_sound (x ∷ a) (y ∷ b) e = ground (arith, bytes_eq_sound a b)
bytes_eq_sound [] (y ∷ b) e = absurd (ground arith)
bytes_eq_sound (x ∷ a) [] e = absurd (ground arith)

or_true : (b : Bool) → (b || true) ≡ true
or_true true = refl
or_true false = refl

-- A cookie is valid for its address until the end of the window after the one it was made in.
pub valid_cookie-cookie_for :
    (mac : Bytes → Bytes → Bytes) (secret ip : Bytes) (made now : ℕ)
    → made ≤ now
    → window_of now ≤ window_of made + 1
    → now < 2 ^ 64
    → valid_cookie mac secret ip (cookie_for mac secret ip made) now ≡ true
unfolding valid_cookie cookie_for
valid_cookie-cookie_for mac secret ip made now later near small =
    elim (Bool-cases (window_of now == window_of made)) [
      | inl same ↦
          let e : window_of now ≡ window_of made = ground (arith, same) in
          rw (e, bytes_eq_refl (make_cookie mac secret ip (window_of made))) refl
      | inr over ↦
          let e : (window_of now + (2 ^ 64 - 1)) % 2 ^ 64 ≡ window_of made = ground (arith, over) in
          rw (e, bytes_eq_refl (make_cookie mac secret ip (window_of made))) (or_true _)
    ]

-- Only the MAC of the address and of the present or the previous window is a valid cookie.
pub valid_cookie_sound :
    (mac : Bytes → Bytes → Bytes) (secret ip cookie : Bytes) (now : ℕ)
    → valid_cookie mac secret ip cookie now ≡ true
    → (cookie ≡ make_cookie mac secret ip (window_of now))
      ⊎ (cookie ≡ make_cookie mac secret ip ((window_of now + (2 ^ 64 - 1)) % 2 ^ 64))
unfolding valid_cookie
valid_cookie_sound mac secret ip cookie now e = ground (
  arith,
  bytes_eq_sound (make_cookie mac secret ip (window_of now)) cookie,
  bytes_eq_sound (make_cookie mac secret ip ((window_of now + (2 ^ 64 - 1)) % 2 ^ 64)) cookie,
)

-- `n` first messages from one address at one time: the answer to the last of them.
unfoldable pub asked : ℕ → (ℕ → Option RateBucket) → ℕ → ℕ → Bool × (ℕ → Option RateBucket)
asked zero rate ip now = (false, rate)
asked (suc n) rate ip now = require_cookie (asked n rate ip now).1 ip now

asked_bucket :
    (n : ℕ) (rate : ℕ → Option RateBucket) (ip now : ℕ)
    → rate ip ≡ none
    → n + 1 < 2 ^ 32
    → (asked (suc n) rate ip now).1 ip
      ≡ some (record { count = n + 1; reset = now + handshake_rate_window })
unfolding asked require_cookie
asked_bucket zero rate ip now new h = ground arith
asked_bucket (suc n) rate ip now new h = ground (arith, asked_bucket n rate ip now new)

-- An address that was not seen before needs no cookie for its first twenty messages within the
-- window, and needs one for every later message in it.
pub require_cookie-asked :
    (n : ℕ) (rate : ℕ → Option RateBucket) (ip now : ℕ)
    → rate ip ≡ none
    → n + 2 < 2 ^ 32
    → (asked (suc n) rate ip now).0 ≡ ltb handshake_rate_limit (suc n)
unfolding asked require_cookie
require_cookie-asked zero rate ip now new h = ground arith
require_cookie-asked (suc n) rate ip now new h = ground (arith, asked_bucket n rate ip now new)
