-- ===== src/Prelude/Lists.antt =====
-- Lists measured and indexed by native numbers, under the library's names.
use Prim.Native.Nat.{ℕ, zero, suc, ◌+◌}
use mathlib.Core.Path.{◌≡◌, refl}
use mathlib.Core.List.{List, [], ◌∷◌, ◌++◌}
use mathlib.Core.Option.{Option, none, some}
use os2compat.Prelude.Tests.{ltb, ◌==◌, if◌then◌else◌}
use native.Mathlib.Omega.{arith}

module _ {ℓ} {A : Type ℓ} where
  abbrev pub length : List A → ℕ
  length [] = 0
  length (_ ∷ xs) = suc (length xs)

  abbrev pub get_elem? : List A → ℕ → Option A
  get_elem? [] i = none
  get_elem? (x ∷ xs) zero = some x
  get_elem? (x ∷ xs) (suc i) = get_elem? xs i

  pub length-append : (xs ys : List A) → length (xs ++ ys) ≡ length xs + length ys
  length-append [] ys = omega arith
  length-append (x ∷ xs) ys = omega (arith, length-append xs ys)

  pub get_elem?-push :
      (xs : List A) (y : A) (i : ℕ)
      → get_elem? (xs ++ (y ∷ [])) i
        ≡ (if ltb i (length xs) then get_elem? xs i else if i == length xs then some y else none)
  get_elem?-push [] y zero = refl
  get_elem?-push [] y (suc i) = ground arith
  get_elem?-push (x ∷ xs) y zero = ground arith
  get_elem?-push (x ∷ xs) y (suc i) = ground (arith, get_elem?-push xs y i)
