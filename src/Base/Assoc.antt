-- ===== src/Base/Assoc.antt =====
-- A Go map from numbers to numbers that is also walked: a list of its entries.
use Prim.Native.Nat.{ℕ}
use mathlib.Core.Path.{◌≡◌}
use mathlib.Core.Option.{Option, none, some}
use mathlib.Core.List.{List, [], ◌∷◌}
use native.Mathlib.Omega.{arith}
use vibe_vpn.Base.Tests.{◌==◌, if◌then◌else◌}

-- m[id], delete(m, id), and m[id] = r.
abbrev pub find : List (ℕ × ℕ) → ℕ → Option ℕ
find [] id = none
find ((j, r) ∷ m) id = if j == id then some r else find m id

abbrev pub erase : List (ℕ × ℕ) → ℕ → List (ℕ × ℕ)
erase [] id = []
erase ((j, r) ∷ m) id = if j == id then erase m id else (j, r) ∷ erase m id

abbrev pub insert : List (ℕ × ℕ) → ℕ → ℕ → List (ℕ × ℕ)
insert m id r = (id, r) ∷ erase m id

pub find-erase :
    (m : List (ℕ × ℕ)) (id j : ℕ) → find (erase m id) j ≡ (if id == j then none else find m j)
find-erase [] id j = ground arith
find-erase ((i, r) ∷ m) id j = ground (arith, find-erase m id j)

pub find-insert :
    (m : List (ℕ × ℕ)) (id r j : ℕ)
    → find (insert m id r) j ≡ (if id == j then some r else find m j)
find-insert m id r j = ground (arith, find-erase m id j)
