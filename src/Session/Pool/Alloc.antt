-- ===== src/Session/Pool/Alloc.antt =====
-- What `alloc` hands out, when it fails, and `release` after it.
use native.Mathlib.Nat.{pow-suc, div-add-mod, div-eq_of_lt-le}
use vibe_vpn.Base.{
  sym, ap, ◌∙◌, fun_ext, dec_le, ℕ, zero, suc, ◌+◌, ◌-◌, ◌*◌, ◌/◌, ◌%◌, ◌^◌, ◌≡◌, ◌≢◌, ◌<◌, ◌≤◌,
  refl, Bool, true, false, not, ◌&&◌, Option, none, some, arith, ◌⊎◌, Bool-cases, inl, inr, ==_iff,
}
use vibe_vpn.Base.Bits.{two_pow-pos}
use vibe_vpn.Session.Pool.{
  Subnet, IsSubnet, IpPool, contains, update, in_range, hosts, scan, alloc_free, alloc, release,
}

-- What the pool hands out: an address of the subnet, not the gateway's, that was free, and that
-- is now taken; no other address changes hands.
pub record Grants (p : IpPool) (ip : ℕ) (q : IpPool) : Type 0 where
  pub inside : contains p.network ip ≡ true
  pub not_gateway : ip ≢ p.gateway_ip
  pub was_free : p.used ip ≡ false
  pub taken : q ≡ record p { used = update p.used ip true }

two_pow-add : (a b : ℕ) → 2 ^ (a + b) ≡ 2 ^ a * 2 ^ b
two_pow-add zero b = let e : 0 + b ≡ b = omega arith in rw e (omega arith)
two_pow-add (suc a) b =
    let e : suc a + b ≡ suc (a + b) = omega arith in
    rw (e, pow-suc 2 (a + b), pow-suc 2 a, two_pow-add a b) (grind arith)

aligned-div : (b ip i : ℕ) → ip % b ≡ 0 → i < b → (ip + i) / b ≡ ip / b
aligned-div b ip i h k =
    let e : ip ≡ ip / b * b = grind (arith, div-add-mod ip b) in
    div-eq_of_lt-le b (grind arith) (grind arith)

aligned-lt : (b c ip i : ℕ) → ip % b ≡ 0 → i < b → ip < c * b → ip + i < c * b
aligned-lt b c ip i h k l =
    let e : ip ≡ ip / b * b = grind (arith, div-add-mod ip b) in
    let q : ip / b < c = grind arith in grind arith

host_inside :
    (n : Subnet) (i : ℕ)
    → IsSubnet n
    → i < 2 ^ (32 - n.ones)
    → ((n.ip + i) % 2 ^ 32 ≡ n.ip + i) × (contains n (n.ip + i) ≡ true)
unfolding contains
host_inside n i v h =
    let e : n.ones + (32 - n.ones) ≡ 32 = omega (arith, v.prefix) in
    let whole : 2 ^ n.ones * 2 ^ (32 - n.ones) ≡ 2 ^ 32 =
      sym (two_pow-add n.ones (32 - n.ones)) ∙ ap (λ (t : ℕ). 2 ^ t) e in
    let below : n.ip + i < 2 ^ 32 =
      rw whole at
        (aligned-lt (2 ^ (32 - n.ones)) (2 ^ n.ones) n.ip i v.masked h (rw whole v.word)) in
    (omega arith, (==_iff _ _).1 (aligned-div (2 ^ (32 - n.ones)) n.ip i v.masked h))

scan-Grants :
    (p : IpPool) (i rounds ip : ℕ) (q : IpPool)
    → IsSubnet p.network
    → i + rounds < 2 ^ (32 - p.network.ones)
    → scan p i rounds ≡ some (ip, q)
    → Grants p ip q
unfolding scan
scan-Grants p i zero ip q v h e = absurd (ground arith)
scan-Grants p i (suc rounds) ip q v h e =
    let (cand, inside) = host_inside p.network i v (omega arith) in
    let later : scan p (i + 1) rounds ≡ some (ip, q) → Grants p ip q =
      scan-Grants p (i + 1) rounds ip q v (omega arith) in
    let now : p.network.ip + i ≢ p.gateway_ip
        → p.used (p.network.ip + i) ≡ false
        → Grants p (p.network.ip + i) (record p { used = update p.used (p.network.ip + i) true }) =
      λ g u. record { inside = inside; not_gateway = g; was_free = u; taken = refl } in
    ground arith

hosts-lt : (p : IpPool) → 1 + hosts p < 2 ^ (32 - p.network.ones) ⊎ (hosts p ≡ 0)
unfolding hosts
hosts-lt p = ground (arith, two_pow-pos (32 - p.network.ones))

alloc_free-Grants :
    (p : IpPool) (ip : ℕ) (q : IpPool)
    → IsSubnet p.network
    → alloc_free p ≡ some (ip, q)
    → Grants p ip q
unfolding alloc_free
alloc_free-Grants p ip q v e = elim (hosts-lt p) [
  | inl room ↦ scan-Grants p 1 (hosts p) ip q v room e
  | inr nothing ↦ absurd (scan-zero (hosts p) nothing e)
]
  where
    scan-zero : (n : ℕ) → n ≡ 0 → scan p 1 n ≡ some (ip, q) → ⊥
    scan-zero zero h e = ground arith
    scan-zero (suc n) h e = omega arith

-- Whether or not an address is asked for, the pool hands out an address of the subnet that is
-- not the gateway's and was free, marks it taken and changes nothing else.
pub alloc-Grants :
    (p : IpPool) (preferred : Option ℕ) (ip : ℕ) (q : IpPool)
    → IsSubnet p.network
    → alloc p preferred ≡ some (ip, q)
    → Grants p ip q
unfolding alloc
alloc-Grants p none ip q v e = alloc_free-Grants p ip q v e
alloc-Grants p (some ask) ip q v e = elim (Bool-cases (in_range p ask && not (p.used ask))) [
  | inl fits ↦ unfold in_range in ground arith
  | inr other ↦ alloc_free-Grants p ip q v (rw other at e)
]

scan_exhausted :
    (p : IpPool) (i rounds k : ℕ)
    → scan p i rounds ≡ none
    → i ≤ k
    → k < i + rounds
    → ((p.network.ip + k) % 2 ^ 32 ≡ p.gateway_ip) ⊎ (p.used ((p.network.ip + k) % 2 ^ 32) ≡ true)
unfolding scan
scan_exhausted p i zero k e lo hi = absurd (omega arith)
scan_exhausted p i (suc rounds) k e lo hi = elim (dec_le k i) [
  | yes here ↦ let at : k ≡ i = omega arith in rw at (ground arith)
  | no above ↦ scan_exhausted p (i + 1) rounds k (ground arith) (omega arith) (omega arith)
]

-- The pool fails only when every host address of the subnet is the gateway's or taken.
pub alloc_exhausted :
    (p : IpPool) (preferred : Option ℕ) (k : ℕ)
    → alloc p preferred ≡ none
    → 1 ≤ k
    → k ≤ hosts p
    → ((p.network.ip + k) % 2 ^ 32 ≡ p.gateway_ip) ⊎ (p.used ((p.network.ip + k) % 2 ^ 32) ≡ true)
unfolding alloc alloc_free
alloc_exhausted p none k e lo hi = scan_exhausted p 1 (hosts p) k e lo (omega arith)
alloc_exhausted p (some ask) k e lo hi =
    scan_exhausted p 1 (hosts p) k (ground arith) lo (omega arith)

-- Giving an address back undoes handing it out.
pub release-alloc :
    (p : IpPool) (preferred : Option ℕ) (ip : ℕ) (q : IpPool)
    → IsSubnet p.network
    → alloc p preferred ≡ some (ip, q)
    → release q ip ≡ p
unfolding release
release-alloc p preferred ip q v e =
    let g : Grants p ip q = alloc-Grants p preferred ip q v e in
    rw g.taken (ap (λ (u : ℕ → Bool). record p { used = u }) (fun_ext (restored g.was_free)))
  where
    restored : p.used ip ≡ false → (x : ℕ) → update (update p.used ip true) ip false x ≡ p.used x
    restored free x = ground arith
