-- ===== src/Session/Manager/Invariant.antt =====
-- The invariant of the manager's maps, and that every critical section keeps it.
use vibe_vpn.Base.{ℕ, ◌≡◌, ◌≢◌, ◌≤◌, ◌<◌, true, false, not, none, some, arith}
use vibe_vpn.Session.Pool.{IpPool, IsSubnet, contains, release}
use vibe_vpn.Session.Pool.Alloc.{Grants}
use vibe_vpn.Session.Manager.{Manager, is_none, no_entry}
use vibe_vpn.Session.Manager.Adopt.{register, set_ip, take_over, remove}

-- A running session that has been given an address and has not passed it on.
abbrev pub Holds : Manager → ℕ → ℕ → Type 0
Holds m r k =
    ((m.entry r).ip ≡ some k) × ((m.entry r).transferred ≡ false) × ((m.entry r).running ≡ true)

pub record Inv (m : Manager) : Type 0 where
  -- `byIP` maps an address to its holder, and every holder is found there.
  pub owner : (k r : ℕ) → m.by_ip k ≡ some r → Holds m r k
  pub owned : (r k : ℕ) → Holds m r k → m.by_ip k ≡ some r
  -- The pool counts as taken exactly the addresses that have a holder.
  pub leased : (k : ℕ) → m.pool.used k ≡ not (is_none (m.by_ip k))
  -- Every address in use is one of the subnet, and not the gateway's.
  pub inside :
      (k r : ℕ) → m.by_ip k ≡ some r → (contains m.pool.network k ≡ true) × (k ≢ m.pool.gateway_ip)
  -- `byStatic` maps a key to a session of that key that holds an address.
  pub keyed :
      (key r : ℕ)
      → m.by_static key ≡ some r
      → ((m.entry r).client_key ≡ some key)
        × (is_none (m.entry r).ip ≡ false)
        × ((m.entry r).transferred ≡ false)
        × ((m.entry r).running ≡ true)
  -- Only a session with an address passes one on.
  pub kept : (r : ℕ) → (m.entry r).ip ≡ none → (m.entry r).transferred ≡ false
  -- Numbers not yet given to a session are unused.
  pub unused : (r : ℕ) → m.next_ref ≤ r → m.entry r ≡ no_entry
  pub subnet : IsSubnet m.pool.network

-- A session that is in its handshake.
pub record InHandshake (m : Manager) (s : ℕ) : Type 0 where
  pub running : (m.entry s).running ≡ true
  pub no_ip : (m.entry s).ip ≡ none

abbrev pub placed : Manager → IpPool → ℕ → ℕ → ℕ → Manager
placed m pool s key ip = register (set_ip (record m { pool = pool }) s ip) s key ip

module _ (m : Manager) (v : Inv m) (s key ip : ℕ) (h : InHandshake m s)
    (named : (m.entry s).client_key ≡ some key) (known : s < m.next_ref) (pool : IpPool)
    (g : Grants m.pool ip pool) where
  placed-owner :
      (k r : ℕ) → (placed m pool s key ip).by_ip k ≡ some r → Holds (placed m pool s key ip) r k
  unfolding register set_ip
  placed-owner k r e = ground (arith, v.owner k r, v.kept s h.no_ip, h.running, h.no_ip)

  placed-owned :
      (r k : ℕ) → Holds (placed m pool s key ip) r k → (placed m pool s key ip).by_ip k ≡ some r
  unfolding register set_ip
  placed-owned r k e = ground (arith, v.owned r k, v.leased ip, g.was_free, h.no_ip)

  placed-leased :
      (k : ℕ)
      → (placed m pool s key ip).pool.used k ≡ not (is_none ((placed m pool s key ip).by_ip k))
  unfolding register set_ip
  placed-leased k = rw g.taken (ground (arith, v.leased k))

  placed-keyed :
      (k r : ℕ)
      → (placed m pool s key ip).by_static k ≡ some r
      → (((placed m pool s key ip).entry r).client_key ≡ some k)
        × (is_none ((placed m pool s key ip).entry r).ip ≡ false)
        × (((placed m pool s key ip).entry r).transferred ≡ false)
        × (((placed m pool s key ip).entry r).running ≡ true)
  unfolding register set_ip
  placed-keyed k r e = ground (arith, v.keyed k r, h.no_ip, h.running, named, v.kept s h.no_ip)

  pub placed-Inv : Inv (placed m pool s key ip)
  unfolding register set_ip
  placed-Inv = record {
    owner = placed-owner;
    owned = placed-owned;
    leased = placed-leased;
    inside = λ k r e. rw g.taken (ground (arith, v.inside k r, g.inside, g.not_gateway));
    keyed = placed-keyed;
    kept = λ r e. ground (arith, v.kept r);
    unused = λ r e. ground (arith, v.unused r);
    subnet = rw g.taken v.subnet;
  }

abbrev pub moved : Manager → ℕ → ℕ → ℕ → ℕ → Manager
moved m s key old ip = register (take_over m s old ip) s key ip

module _ (m : Manager) (v : Inv m) (s key old ip : ℕ) (h : InHandshake m s)
    (named : (m.entry s).client_key ≡ some key) (known : s < m.next_ref) (holds : Holds m old ip)
    (differ : old ≢ s) where
  moved-owner :
      (k r : ℕ) → (moved m s key old ip).by_ip k ≡ some r → Holds (moved m s key old ip) r k
  unfolding register take_over
  moved-owner k r e = ground (arith, v.owner k r, v.kept s h.no_ip, h.running, h.no_ip, holds)

  moved-owned :
      (r k : ℕ) → Holds (moved m s key old ip) r k → (moved m s key old ip).by_ip k ≡ some r
  unfolding register take_over
  moved-owned r k e = ground (arith, v.owned r k, v.owned old ip holds, h.no_ip)

  moved-leased :
      (k : ℕ) → (moved m s key old ip).pool.used k ≡ not (is_none ((moved m s key old ip).by_ip k))
  unfolding register take_over
  moved-leased k = ground (arith, v.leased k, v.owned old ip holds)

  moved-keyed :
      (k r : ℕ)
      → (moved m s key old ip).by_static k ≡ some r
      → m.by_static key ≡ some old
      → (((moved m s key old ip).entry r).client_key ≡ some k)
        × (is_none ((moved m s key old ip).entry r).ip ≡ false)
        × (((moved m s key old ip).entry r).transferred ≡ false)
        × (((moved m s key old ip).entry r).running ≡ true)
  unfolding register take_over
  moved-keyed k r e was =
      ground (arith, v.keyed k r, v.keyed key old was, h.no_ip, h.running, named, v.kept s h.no_ip)

  pub moved-Inv : m.by_static key ≡ some old → Inv (moved m s key old ip)
  unfolding register take_over
  moved-Inv was = record {
    owner = moved-owner;
    owned = moved-owned;
    leased = moved-leased;
    inside = λ k r e. ground (arith, v.inside k r, v.inside ip old (v.owned old ip holds));
    keyed = λ k r e. moved-keyed k r e was;
    kept = λ r e. ground (arith, v.kept r, holds);
    unused = λ r e. ground (arith, v.unused r, holds);
    subnet = v.subnet;
  }

module _ (m : Manager) (v : Inv m) (s : ℕ) (run : (m.entry s).running ≡ true) where
  remove-owner : (k r : ℕ) → (remove m s).by_ip k ≡ some r → Holds (remove m s) r k
  unfolding remove
  remove-owner k r e = ground (arith, v.owner k r)

  remove-owned : (r k : ℕ) → Holds (remove m s) r k → (remove m s).by_ip k ≡ some r
  unfolding remove
  remove-owned r k e = ground (arith, v.owned r k, run)

  remove-leased : (k : ℕ) → (remove m s).pool.used k ≡ not (is_none ((remove m s).by_ip k))
  unfolding remove release
  remove-leased k = ground (arith, v.leased k, v.owned s k, v.owner k s, run)

  remove-keyed :
      (k r : ℕ)
      → (remove m s).by_static k ≡ some r
      → (((remove m s).entry r).client_key ≡ some k)
        × (is_none ((remove m s).entry r).ip ≡ false)
        × (((remove m s).entry r).transferred ≡ false)
        × (((remove m s).entry r).running ≡ true)
  unfolding remove
  remove-keyed k r e = ground (arith, v.keyed k r)

  remove-network : (remove m s).pool.network ≡ m.pool.network
  unfolding remove release
  remove-network = ground arith

  remove-gateway : (remove m s).pool.gateway_ip ≡ m.pool.gateway_ip
  unfolding remove release
  remove-gateway = ground arith

  -- Removing a running session keeps the invariant.
  pub remove-Inv : s < m.next_ref → Inv (remove m s)
  unfolding remove
  remove-Inv known = record {
    owner = remove-owner;
    owned = remove-owned;
    leased = remove-leased;
    inside = λ k r e. rw (remove-network, remove-gateway) (ground (arith, v.inside k r));
    keyed = remove-keyed;
    kept = λ r e. ground (arith, v.kept r);
    unused = λ r e. ground (arith, v.unused r);
    subnet = rw remove-network v.subnet;
  }
