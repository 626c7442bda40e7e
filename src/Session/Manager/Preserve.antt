-- ===== src/Session/Manager/Preserve.antt =====
-- Every critical section of the manager keeps the invariant.
use vibe_vpn.Base.{
  ℕ, ◌+◌, ◌≡◌, ◌≢◌, ◌<◌, none, some, ◌==◌, leb, length, List, ok, arith, inl, inr, Option-cases,
  Bool-cases,
}
use vibe_vpn.Session.Pool.{alloc}
use vibe_vpn.Session.Pool.Alloc.{alloc-Grants}
use vibe_vpn.Session.Manager.{
  Manager, Stats, Admission, drop_one, begin_transport, insert_session, alloc_id,
}
use vibe_vpn.Session.Manager.Adopt.{fresh_ip, reconnect_ip, adopt, set_client_key}
use vibe_vpn.Session.Manager.Invariant.{Inv, InHandshake, placed, moved, placed-Inv, moved-Inv}

pub insert-Inv : (m : Manager) (id : ℕ) → Inv m → Inv (insert_session m id).1
unfolding insert_session
insert-Inv m id v = record {
  owner = λ k r e. ground (arith, v.owner k r e, v.unused r);
  owned = λ r k e. ground (arith, v.owned r k);
  leased = v.leased;
  inside = v.inside;
  keyed = λ k r e. ground (arith, v.keyed k r, v.unused r);
  kept = λ r e. ground (arith, v.kept r);
  unused = λ r e. ground (arith, v.unused r);
  subnet = v.subnet;
}

-- The counters, the id counter and the allowlist are no part of the invariant.
pub frame-Inv :
    (m : Manager) (id : ℕ) (stats : Stats) (peers : List ℕ)
    → Inv m
    → Inv (record m { next_id = id; stats = stats; peers = peers })
frame-Inv m id stats peers v = record {
  owner = v.owner;
  owned = v.owned;
  leased = v.leased;
  inside = v.inside;
  keyed = v.keyed;
  kept = v.kept;
  unused = v.unused;
  subnet = v.subnet;
}

pub begin-Inv : (m m' : Manager) (a : Admission) → begin_transport m ≡ some (a, m') → Inv m → Inv m'
unfolding begin_transport
begin-Inv m m' a e v = elim (Bool-cases (leb m.max_sessions (length m.by_id))) [
  | inl busy ↦
      let same : drop_one m ≡ m' = ground arith in rw (← same) (frame-Inv m m.next_id _ m.peers v)
  | inr room ↦ elim (Option-cases (alloc_id (length m.by_id + 1) m.by_id m.next_id)) [
    | inl bad ↦ absurd (ground arith)
    | inr (id, got) ↦
        let same : record m { next_id = id } ≡ m' = ground arith in
        rw (← same) (frame-Inv m id m.stats m.peers v)
  ]
]

pub key-Inv :
    (m : Manager) (s key : ℕ)
    → s < m.next_ref
    → InHandshake m s
    → Inv m
    → Inv (set_client_key m s key)
unfolding set_client_key
key-Inv m s key known h v = record {
  owner = λ k r e. ground (arith, v.owner k r);
  owned = λ r k e. ground (arith, v.owned r k);
  leased = v.leased;
  inside = v.inside;
  keyed = λ k r e. ground (arith, v.keyed k r, h.no_ip);
  kept = λ r e. ground (arith, v.kept r);
  unused = λ r e. ground (arith, v.unused r);
  subnet = v.subnet;
}

fresh_ip-Inv :
    (m m' : Manager) (s key : ℕ)
    → Inv m
    → InHandshake m s
    → (m.entry s).client_key ≡ some key
    → s < m.next_ref
    → fresh_ip m s key ≡ ok m'
    → Inv m'
unfolding fresh_ip
fresh_ip-Inv m m' s key v h named known e =
    elim (Option-cases (alloc m.pool (m.entry s).requested_ip)) [
      | inl bad ↦ absurd (ground arith)
      | inr ((ip, pool), got) ↦
          let state : placed m pool s key ip ≡ m' = ground arith in
          rw (← state) (
            placed-Inv m v s key ip h named known pool (alloc-Grants m.pool _ ip pool v.subnet got))
    ]

reconnect_ip-Inv :
    (m m' : Manager) (s key old : ℕ)
    → Inv m
    → InHandshake m s
    → (m.entry s).client_key ≡ some key
    → s < m.next_ref
    → m.by_static key ≡ some old
    → old ≢ s
    → reconnect_ip m s key old ≡ some (ok m')
    → Inv m'
unfolding reconnect_ip
reconnect_ip-Inv m m' s key old v h named known was differ e =
    elim (Option-cases (m.entry old).ip) [
      | inl bad ↦ absurd (ground (arith, v.keyed key old was))
      | inr (ip, got) ↦
          let (_, _, kept, run) = v.keyed key old was in
          let state : moved m s key old ip ≡ m' = ground arith in
          rw (← state) (moved-Inv m v s key old ip h named known (got, kept, run) differ was)
    ]

pub adopt-Inv :
    (m m' : Manager) (s key : ℕ)
    → Inv m
    → InHandshake m s
    → (m.entry s).client_key ≡ some key
    → s < m.next_ref
    → adopt m s key ≡ some (ok m')
    → Inv m'
unfolding adopt
adopt-Inv m m' s key v h named known e = elim (Option-cases (m.by_static key)) [
  | inl new ↦ fresh_ip-Inv m m' s key v h named known (ground arith)
  | inr (old, was) ↦ elim (Bool-cases (old == s)) [
    | inl same ↦ fresh_ip-Inv m m' s key v h named known (ground arith)
    | inr other ↦ reconnect_ip-Inv m m' s key old v h named known was (ground arith) (ground arith)
  ]
]

-- `adopt` never converts a missing address: it does not panic.
pub adopt_total : (m : Manager) (s key : ℕ) → Inv m → adopt m s key ≢ none
unfolding adopt reconnect_ip
adopt_total m s key v = elim (Option-cases (m.by_static key)) [
  | inl new ↦ ground arith
  | inr (old, was) ↦ ground (arith, v.keyed key old was)
]
