-- ===== src/Session/Manager/Ids.antt =====
-- `allocIDLocked` ends, and finds an id that no session has. The ids go around the numbers from 1
-- to 2 ^ 32 - 1, and the map cannot hold them all.
use vibe_vpn.Base.{
  ℕ, zero, suc, ◌+◌, ◌-◌, ◌^◌, ◌<◌, ◌≤◌, ◌≡◌, ◌≢◌, refl, Bool, true, false, none, some, List, [],
  ◌∷◌, ltb, if◌then◌else◌, length, arith, Option-cases, inl, inr,
}
use vibe_vpn.Session.Manager.{find, erase, next_of, is_none, alloc_id}
use vibe_vpn.Base.Assoc.{find-erase}

abbrev pub is_id : ℕ → Bool
is_id id = if ltb 0 id then ltb id (2 ^ 32) else false

-- How many steps lead from one id to another, at least one.
steps_to : ℕ → ℕ → ℕ
steps_to id j = if ltb id j then j - id else j + (2 ^ 32 - 1) - id

next_of-is_id : (id : ℕ) → id < 2 ^ 32 → is_id (next_of id) ≡ true
next_of-is_id id h = ground arith

steps_to-next_of :
    (id j : ℕ)
    → is_id id ≡ true
    → is_id j ≡ true
    → next_of id ≢ j
    → steps_to id j ≡ suc (steps_to (next_of id) j)
unfolding steps_to
steps_to-next_of id j hi hj ne = ground arith

not_next : (id j : ℕ) → is_id id ≡ true → is_id j ≡ true → 1 < steps_to id j → next_of id ≢ j
unfolding steps_to
not_next id j hi hj far = ground arith

length-erase : (m : List (ℕ × ℕ)) (j : ℕ) → length (erase m j) ≤ length m
length-erase [] j = omega arith
length-erase ((i, r) ∷ m) j = ground (arith, length-erase m j)

length-erase-lt :
    (m : List (ℕ × ℕ)) (j : ℕ) → is_none (find m j) ≡ false → length (erase m j) < length m
length-erase-lt [] j e = absurd (ground arith)
length-erase-lt ((i, r) ∷ m) j e = ground (arith, length-erase m j, length-erase-lt m j)

-- Ids that the search does not come to can go from the map.
alloc_id-erase :
    (fuel : ℕ) (m : List (ℕ × ℕ)) (id j : ℕ)
    → is_id id ≡ true
    → is_id j ≡ true
    → fuel < steps_to id j
    → alloc_id fuel m id ≡ none
    → alloc_id fuel (erase m j) id ≡ none
unfolding alloc_id
alloc_id-erase zero m id j hi hj far e = refl
alloc_id-erase (suc fuel) m id j hi hj far e =
    let ne : next_of id ≢ j = not_next id j hi hj (omega arith) in
    let steps : steps_to id j ≡ suc (steps_to (next_of id) j) = steps_to-next_of id j hi hj ne in
    let on : is_id (next_of id) ≡ true = next_of-is_id id (ground arith) in
    ground
      (arith, find-erase m j (next_of id), alloc_id-erase fuel m (next_of id) j on hj (omega arith))

steps_to_self : (id : ℕ) → steps_to id id ≡ 2 ^ 32 - 1
unfolding steps_to
steps_to_self id = ground arith

-- A search that has not ended after `fuel` rounds has met `fuel` different ids in the map.
alloc_id-le-length :
    (fuel : ℕ) (m : List (ℕ × ℕ)) (id : ℕ)
    → id < 2 ^ 32
    → fuel < 2 ^ 32
    → alloc_id fuel m id ≡ none
    → fuel ≤ length m
unfolding alloc_id
alloc_id-le-length zero m id h k e = omega arith
alloc_id-le-length (suc fuel) m id h k e =
    let c : ℕ = next_of id in
    let on : is_id c ≡ true = next_of-is_id id h in
    let taken : is_none (find m c) ≡ false = ground arith in
    let rest : alloc_id fuel m c ≡ none = ground arith in
    let less : alloc_id fuel (erase m c) c ≡ none =
      alloc_id-erase fuel m c c on on (omega (arith, steps_to_self c)) rest in
    omega (
      arith,
      length-erase-lt m c taken,
      alloc_id-le-length fuel (erase m c) c (ground arith) (omega arith) less,
    )

alloc_id-is_free :
    (fuel : ℕ) (m : List (ℕ × ℕ)) (id j : ℕ)
    → id < 2 ^ 32
    → alloc_id fuel m id ≡ some j
    → (find m j ≡ none) × (is_id j ≡ true)
unfolding alloc_id
alloc_id-is_free zero m id j h e = absurd (ground arith)
alloc_id-is_free (suc fuel) m id j h e =
    ground (arith, next_of-is_id id h, alloc_id-is_free fuel m (next_of id) j)

-- As long as fewer than 2 ^ 32 - 1 sessions stand in the map, the search for an id ends within
-- one round more than there are sessions, with an id from 1 to 2 ^ 32 - 1 that no session has.
pub alloc_id_total :
    (m : List (ℕ × ℕ)) (id : ℕ)
    → id < 2 ^ 32
    → length m < 2 ^ 32 - 1
    → (j : ℕ) × (alloc_id (length m + 1) m id ≡ some j) × (find m j ≡ none) × (is_id j ≡ true)
alloc_id_total m id h k = elim (Option-cases (alloc_id (length m + 1) m id)) [
  | inl stuck ↦ absurd (omega (arith, alloc_id-le-length (length m + 1) m id h (omega arith) stuck))
  | inr (j, e) ↦
      let (free, valid) = alloc_id-is_free (length m + 1) m id j h e in (j, e, free, valid)
]
