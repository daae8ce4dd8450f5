-- ===== src/Prelude/Arrays.antt =====
-- A C array as a function of the index, with an assignment and `memmove`.
-- The array's size is not part of the value: that each index is in bounds is a theorem of the
-- component that owns the array.
use Prim.Native.Nat.{ℕ, ◌+◌, ◌-◌}
use mathlib.Core.Bool.{◌&&◌}
use os2compat.Prelude.Tests.{ltb, leb, ◌==◌, if◌then◌else◌}

abbrev pub Array {ℓ} : Type ℓ → Type ℓ
Array A = ℕ → A

-- `a[ i ] = v`
abbrev pub update {ℓ} : {A : Type ℓ} → Array A → ℕ → A → Array A
update a i v j = if j == i then v else a j

-- `memmove( &a[ to ], &a[ from ], n * sizeof( a[ 0 ]))`
abbrev pub memmove {ℓ} : {A : Type ℓ} → ℕ → ℕ → ℕ → Array A → Array A
memmove to from n a j = if leb to j && ltb j (to + n) then a (j - to + from) else a j
