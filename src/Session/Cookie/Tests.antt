-- ===== src/Session/Cookie/Tests.antt =====
-- Cookies with a MAC that returns its key and its text.
use vibe_vpn.Base.{◌*◌, ◌≡◌, true, [], ◌∷◌, ◌++◌, Bytes, arith}
use vibe_vpn.Session.Cookie.{second, cookie_for, valid_cookie, valid_cookie-cookie_for}

abbrev mac : Bytes → Bytes → Bytes
mac key text = key ++ text

abbrev ip : Bytes
ip = 10 ∷ 1 ∷ 2 ∷ 3 ∷ []

valid_cookie-cookie_for_example :
    valid_cookie mac (7 ∷ []) ip (cookie_for mac (7 ∷ []) ip (3000 * second)) (4000 * second) ≡ true
valid_cookie-cookie_for_example =
    valid_cookie-cookie_for mac (7 ∷ []) ip (3000 * second) (4000 * second) (omega arith)
      (omega arith) (omega arith)
