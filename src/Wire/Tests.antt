-- ===== src/Wire/Tests.antt =====
-- Message types by name.
use vibe_vpn.Base.{◌≡◌, refl}
use vibe_vpn.Wire.{known, unknown, type_name}

names : (type_name 0x0C ≡ known "cookie") × (type_name 200 ≡ unknown 200)
unfolding type_name
names = (refl, refl)
