-- ===== src/Ippkt.antt =====
-- internal/ippkt/ippkt.go: the IPv4 header of a raw packet. The outer `none` is a panic, the inner
-- one is `ok = false`.
mod Tests
use vibe_vpn.Base.{
  ℕ, zero, suc, ◌+◌, ◌-◌, ◌*◌, ◌/◌, ◌%◌, ◌^◌, ◌<◌, ◌≤◌, ◌≡◌, ◌≢◌, get_or, refl, bit_and, Bool, true,
  false, ◌||◌, not, Option, none, some, List, [], ◌∷◌, Bytes, get_elem?, slice, get_be, length, ltb,
  leb, ◌==◌, if◌then◌else◌, take, drop, arith,
}
use vibe_vpn.Base.Panic.{◌>>=◌}
use vibe_vpn.Base.Bits.{bit_and-low_mask}

pub record Header : Type 0 where
  pub src : Bytes
  pub dst : Bytes

addresses : Bytes → Option (Option Header)
addresses pkt = do
  src ← slice 12 16 pkt
  dst ← slice 16 20 pkt
  some (some (record { src = src; dst = dst }))

lengths : Bytes → ℕ → Option (Option Header)
unfolding addresses
lengths pkt first = do
  let ihl = bit_and first 0x0f * 4
  field ← slice 2 4 pkt
  let total_len = get_be field
  if ltb ihl 20 || ltb (length pkt) ihl
      then some none
      else if ltb total_len ihl || ltb (length pkt) total_len
      then some none
      else addresses pkt

unfoldable pub parse : Bytes → Option (Option Header)
unfolding lengths
parse pkt =
    let rest = get_elem? pkt 0 >>= λ first.
    if not (first / 2 ^ 4 == 4) then some none else lengths pkt first in
    if ltb (length pkt) 20 then some none else rest

-- What an IPv4 packet must satisfy: version 4, a header of at least 20 bytes, and a total length
-- that covers the header and is covered by the packet.
pub record IsIpv4 (pkt : Bytes) : Type 0 where
  pub long_enough : 20 ≤ length pkt
  pub version : get_or pkt 0 0 / 16 ≡ 4
  pub header : (20 ≤ get_or pkt 0 0 % 16 * 4) × (get_or pkt 0 0 % 16 * 4 ≤ length pkt)
  pub total :
      (get_or pkt 0 0 % 16 * 4 ≤ get_be (take 2 (drop 2 pkt)))
      × (get_be (take 2 (drop 2 pkt)) ≤ length pkt)

pub header_of : Bytes → Header
header_of pkt = record { src = take 4 (drop 12 pkt); dst = take 4 (drop 16 pkt) }

-- Every IPv4 packet is accepted, with its two addresses.
pub parse_accepts : (pkt : Bytes) → IsIpv4 pkt → parse pkt ≡ some (some (header_of pkt))
unfolding parse header_of
parse_accepts [] v = absurd (omega (arith, v.long_enough))
parse_accepts (p ∷ pkt) v = ground (arith, bit_and-low_mask 4 p)

-- `Parse` never reads outside the packet, whatever it holds.
pub never_panics : (pkt : Bytes) → parse pkt ≢ none
unfolding parse
never_panics [] = ground arith
never_panics (p ∷ pkt) = ground arith

-- What `Parse` accepts is an IPv4 packet, and it returns the packet's two addresses.
pub parse_sound :
    (pkt : Bytes) (h : Header) → parse pkt ≡ some (some h) → IsIpv4 pkt × (h ≡ header_of pkt)
unfolding parse header_of
parse_sound [] h e = absurd (ground arith)
parse_sound (p ∷ pkt) h e = ground (arith, bit_and-low_mask 4 p)
