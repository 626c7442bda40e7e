-- ===== src/Session/Pool.antt =====
-- `ipPool` of internal/session/server.go. An IPv4 address is its 32-bit number, so that the
-- conversions between net.IP, [4]byte and uint32 are the identity.
pub mod Alloc
mod Tests
use vibe_vpn.Base.{
  ℕ, zero, suc, ◌+◌, ◌-◌, ◌*◌, ◌/◌, ◌%◌, ◌^◌, ◌≡◌, ◌<◌, ◌≤◌, Bool, true, false, not, ◌&&◌, Option,
  none, some, ◌==◌, if◌then◌else◌,
}

-- net.IPNet as ParseCIDR makes it: the network address and the length of the prefix.
pub record Subnet : Type 0 where
  pub ip : ℕ
  pub ones : ℕ

pub record IsSubnet (n : Subnet) : Type 0 where
  pub word : n.ip < 2 ^ 32
  pub prefix : n.ones ≤ 32
  pub masked : n.ip % 2 ^ (32 - n.ones) ≡ 0

-- net.IPNet.Contains.
unfoldable pub contains : Subnet → ℕ → Bool
contains n ip = ip / 2 ^ (32 - n.ones) == n.ip / 2 ^ (32 - n.ones)

-- `out[3]++`: the last byte wraps by itself.
unfoldable pub gateway : Subnet → ℕ
gateway n = n.ip / 2 ^ 8 * 2 ^ 8 + (n.ip % 2 ^ 8 + 1) % 2 ^ 8

pub record IpPool : Type 0 where
  pub network : Subnet
  pub gateway_ip : ℕ
  pub used : ℕ → Bool

-- A map from numbers, with one entry written.
abbrev pub update {ℓ} : {V : Type ℓ} → (ℕ → V) → ℕ → V → ℕ → V
update f k v x = if x == k then v else f x

unfoldable pub new_ip_pool : Subnet → IpPool
unfolding gateway
new_ip_pool n = record { network = n; gateway_ip = gateway n; used = λ ip. false }

unfoldable pub in_range : IpPool → ℕ → Bool
unfolding contains
in_range p ip = if ip == p.gateway_ip then false else contains p.network ip

-- Hosts of the subnet, without the network's and the broadcast address. At a prefix of 32 the
-- source has -1 here and the loop makes no round, as at 0.
unfoldable pub hosts : IpPool → ℕ
hosts p = 1 * 2 ^ (32 - p.network.ones) - 2

-- for i := i; i < i + rounds; i++
unfoldable pub scan : IpPool → ℕ → ℕ → Option (ℕ × IpPool)
scan p i zero = none
scan p i (suc rounds) =
    let rest = scan p (i + 1) rounds in
    let cand = (p.network.ip + i) % 2 ^ 32 in
    if cand == p.gateway_ip
    then rest
    else if not (p.used cand)
    then some (cand, record p { used = update p.used cand true })
    else rest

alloc_free : IpPool → Option (ℕ × IpPool)
unfolding scan hosts
alloc_free p = scan p 1 (hosts p)

unfoldable pub alloc : IpPool → Option ℕ → Option (ℕ × IpPool)
unfolding alloc_free in_range
alloc p none = alloc_free p
alloc p (some preferred) =
    let fresh = record p { used = update p.used preferred true } in
    if in_range p preferred && not (p.used preferred) then some (preferred, fresh) else alloc_free p

unfoldable pub release : IpPool → ℕ → IpPool
release p ip = record p { used = update p.used ip false }
