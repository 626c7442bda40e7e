-- ===== src/Base/Slices.antt =====
-- Byte slices as lists of numbers: reads and slices that panic out of range (`none`), and the
-- big-endian numbers of encoding/binary.
use Prim.Native.Nat.{ℕ, zero, suc, ◌+◌, ◌-◌, ◌*◌, ◌/◌, ◌%◌, ◌^◌, ◌<◌}
use mathlib.Core.Path.{◌≡◌, refl}
use mathlib.Core.Bool.{◌&&◌}
use mathlib.Core.Option.{Option, none, some}
use mathlib.Core.List.{List, [], ◌∷◌}
use native.Mathlib.Omega.{arith}
use vibe_vpn.Base.Tests.{leb, if◌then◌else◌}
use vibe_vpn.Base.Lists.{length, take, drop, All, get_or}

abbrev pub Bytes : Type 0
Bytes = List ℕ

abbrev pub IsByte : ℕ → Type 0
IsByte b = b < 256

abbrev pub AreBytes : Bytes → Type 0
AreBytes = All IsByte

-- b[i]
abbrev pub get_elem? : Bytes → ℕ → Option ℕ
get_elem? [] i = none
get_elem? (x ∷ xs) zero = some x
get_elem? (x ∷ xs) (suc i) = get_elem? xs i

-- b[lo:hi]; Go would allow `hi` up to the capacity, which no slice of the code here uses.
abbrev pub slice : ℕ → ℕ → Bytes → Option Bytes
slice lo hi b = if leb lo hi && leb hi (length b) then some (take (hi - lo) (drop lo b)) else none

abbrev pub put_u16 : ℕ → Bytes
put_u16 n = (n / 2 ^ 8 % 2 ^ 8) ∷ (n % 2 ^ 8) ∷ []

abbrev pub put_u32 : ℕ → Bytes
put_u32 n = (n / 2 ^ 24 % 2 ^ 8) ∷ (n / 2 ^ 16 % 2 ^ 8) ∷ (n / 2 ^ 8 % 2 ^ 8) ∷ (n % 2 ^ 8) ∷ []

-- The number that a big-endian slice stands for.
be_loop : ℕ → Bytes → ℕ
be_loop acc [] = acc
be_loop acc (x ∷ xs) = be_loop (acc * 2 ^ 8 + x) xs

unfoldable pub get_be : Bytes → ℕ
unfolding be_loop
get_be b = be_loop 0 b

pub get_be-put_u16 : (n : ℕ) → n < 2 ^ 16 → get_be (put_u16 n) ≡ n
unfolding get_be
get_be-put_u16 n h = omega arith

pub get_be-put_u32 : (n : ℕ) → n < 2 ^ 32 → get_be (put_u32 n) ≡ n
unfolding get_be
get_be-put_u32 n h = omega arith

pub get_elem?-eq_get_or : (b : Bytes) (i : ℕ) → i < length b → get_elem? b i ≡ some (get_or b i 0)
get_elem?-eq_get_or [] i h = elim h [ ]
get_elem?-eq_get_or (x ∷ b) zero h = refl
get_elem?-eq_get_or (x ∷ b) (suc i) h = get_elem?-eq_get_or b i (omega arith)
