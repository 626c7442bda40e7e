-- ===== src/Session/Pool/Tests.antt =====
-- The subnet 10.8.0.0/30, which has one address to give away, and 10.8.0.0/24.
use vibe_vpn.Base.{ℕ, ◌+◌, ◌*◌, ◌^◌, ◌≡◌, ◌≤◌, refl, true, none, some, arith}
use vibe_vpn.Session.Pool.{
  IsSubnet, IpPool, new_ip_pool, update, gateway, contains, in_range, hosts, scan, alloc,
}

abbrev base : ℕ
base = 10 * 2 ^ 24 + 8 * 2 ^ 16

abbrev small : IpPool
small = new_ip_pool (record { ip = base; ones = 30 })

abbrev full : IpPool
full = record small { used = update small.used (base + 2) true }

small-IsSubnet : IsSubnet small.network
unfolding new_ip_pool
small-IsSubnet = record { word = omega arith; prefix = omega arith; masked = refl }

first_address : alloc small none ≡ some (base + 2, full)
unfolding alloc new_ip_pool scan hosts gateway
first_address = refl

none_left : alloc full none ≡ none
unfolding alloc new_ip_pool scan hosts gateway
none_left = refl

two_hosts : 2 ≤ hosts full
unfolding hosts new_ip_pool
two_hosts = omega arith

-- What is asked for is given when it is free; the gateway's address is not.
abbrev large : IpPool
large = new_ip_pool (record { ip = base; ones = 24 })

asked :
    alloc large (some (base + 77))
    ≡ some (base + 77, record large { used = update large.used (base + 77) true })
unfolding alloc in_range contains new_ip_pool gateway
asked = refl
