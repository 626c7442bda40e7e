-- ===== src/Ippkt/Tests.antt =====
-- A packet with a header of 20 bytes and no payload.
use vibe_vpn.Base.{refl, [], ◌∷◌, Bytes, arith, get_be}
use vibe_vpn.Ippkt.{Header, IsIpv4}

abbrev packet : Bytes
packet = 0x45 ∷ 0 ∷ 0 ∷ 20 ∷ 0 ∷ 0 ∷ 0 ∷ 0 ∷ 64 ∷ 17 ∷ 0 ∷ 0 ∷ 10 ∷ 8 ∷ 0 ∷ 1 ∷ 10 ∷ 8 ∷ 0 ∷ 2 ∷ []

abbrev header : Header
header = record { src = 10 ∷ 8 ∷ 0 ∷ 1 ∷ []; dst = 10 ∷ 8 ∷ 0 ∷ 2 ∷ [] }

packet-IsIpv4 : IsIpv4 packet
unfolding get_be
packet-IsIpv4 = record {
  long_enough = omega arith;
  version = refl;
  header = (omega arith, omega arith);
  total = (omega arith, omega arith);
}
