-- ===== src/Session/Manager/Index.antt =====
-- `byID`: the sessions by their ids.
use vibe_vpn.Base.{
  ℕ, ◌≡◌, ◌≢◌, true, false, ◌&&◌, none, some, ◌==◌, if◌then◌else◌, List, ok, arith, inl, inr,
  Option-cases, Bool-cases,
}
use vibe_vpn.Session.Manager.{Manager, Stats, find, is_ref, insert_session}
use vibe_vpn.Base.Assoc.{find-erase, find-insert}
use vibe_vpn.Session.Manager.Adopt.{
  register, take_over, fresh_ip, reconnect_ip, adopt, remove, set_client_key,
}
use vibe_vpn.Session.Manager.Invariant.{Inv}

pub record Indexed (m : Manager) : Type 0 where
  -- What stands in `byID` is a running session under its own id, and every running session that
  -- has not passed on its address stands there.
  pub indexed :
      (id r : ℕ)
      → find m.by_id id ≡ some r
      → ((m.entry r).sid ≡ id) × ((m.entry r).transferred ≡ false) × ((m.entry r).running ≡ true)
  pub listed :
      (r : ℕ)
      → (m.entry r).transferred ≡ false
      → (m.entry r).running ≡ true
      → find m.by_id (m.entry r).sid ≡ some r

pub insert-Indexed :
    (m : Manager) (id : ℕ)
    → Inv m
    → Indexed m
    → find m.by_id id ≡ none
    → Indexed (insert_session m id).1
unfolding insert_session
insert-Indexed m id v x free = record {
  indexed = λ j r e. ground (arith, find-insert m.by_id id m.next_ref j, x.indexed j r, v.unused r);
  listed = λ r t run. ground (
    arith,
    find-insert m.by_id id m.next_ref (m.entry r).sid,
    find-insert m.by_id id m.next_ref id,
    x.listed r,
    v.unused r,
  );
}

pub frame-Indexed :
    (m : Manager) (id : ℕ) (stats : Stats) (peers : List ℕ)
    → Indexed m
    → Indexed (record m { next_id = id; stats = stats; peers = peers })
frame-Indexed m id stats peers x = record { indexed = x.indexed; listed = x.listed }

pub key-Indexed : (m : Manager) (s key : ℕ) → Indexed m → Indexed (set_client_key m s key)
unfolding set_client_key
key-Indexed m s key x = record {
  indexed = λ j r e. ground (arith, x.indexed j r);
  listed = λ r t run. ground (arith, x.listed r);
}

fresh_ip-Indexed : (m m' : Manager) (s key : ℕ) → Indexed m → fresh_ip m s key ≡ ok m' → Indexed m'
unfolding fresh_ip
fresh_ip-Indexed m m' s key x e = record {
  indexed = λ j r f. ground (arith, x.indexed j r);
  listed = λ r t run. ground (arith, x.listed r);
}

moved-Indexed :
    (m : Manager) (s key old ip : ℕ)
    → Indexed m
    → old ≢ s
    → (m.entry old).transferred ≡ false
    → (m.entry old).running ≡ true
    → Indexed (register (take_over m s old ip) s key ip)
unfolding register take_over
moved-Indexed m s key old ip x differ kept run = record {
  indexed = λ j r f.
      ground (arith, x.indexed j r, find-erase m.by_id (m.entry old).sid j, x.listed old kept run);
  listed = λ r t go. ground (
    arith,
    x.listed r,
    find-erase m.by_id (m.entry old).sid (m.entry r).sid,
    x.listed old kept run,
  );
}

remove-by_id :
    (m : Manager) (s j : ℕ)
    → find (remove m s).by_id j ≡ (
        if is_ref (find m.by_id (m.entry s).sid) s && (m.entry s).sid == j
        then none
        else find m.by_id j)
unfolding remove
remove-by_id m s j = ground (arith, find-erase m.by_id (m.entry s).sid j)

pub remove-Indexed : (m : Manager) (s : ℕ) → Indexed m → Indexed (remove m s)
unfolding remove
remove-Indexed m s x = record {
  indexed = λ j r f. ground (arith, remove-by_id m s j, x.indexed j r);
  listed = λ r t go. ground (arith, remove-by_id m s (m.entry r).sid, x.listed r);
}

reconnect_ip-Indexed :
    (m m' : Manager) (s key old : ℕ)
    → Indexed m
    → old ≢ s
    → (m.entry old).transferred ≡ false
    → (m.entry old).running ≡ true
    → reconnect_ip m s key old ≡ some (ok m')
    → Indexed m'
unfolding reconnect_ip
reconnect_ip-Indexed m m' s key old x differ kept run e = elim (Option-cases (m.entry old).ip) [
  | inl bad ↦ absurd (ground arith)
  | inr (ip, got) ↦
      let state : register (take_over m s old ip) s key ip ≡ m' = ground arith in
      rw (← state) (moved-Indexed m s key old ip x differ kept run)
]

pub adopt-Indexed :
    (m m' : Manager) (s key : ℕ) → Inv m → Indexed m → adopt m s key ≡ some (ok m') → Indexed m'
unfolding adopt
adopt-Indexed m m' s key v x e = elim (Option-cases (m.by_static key)) [
  | inl new ↦ fresh_ip-Indexed m m' s key x (ground arith)
  | inr (old, was) ↦ elim (Bool-cases (old == s)) [
    | inl same ↦ fresh_ip-Indexed m m' s key x (ground arith)
    | inr other ↦
        let (_, _, kept, run) = v.keyed key old was in
        reconnect_ip-Indexed m m' s key old x (ground arith) kept run (ground arith)
  ]
]
