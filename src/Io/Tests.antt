-- ===== src/Io/Tests.antt =====
-- io/scandir.c: the theorems on a directory of four names, where the world counts blocks.
use os2compat.Prelude.{
  ℕ, ◌+◌, ◌-◌, ◌≡◌, refl, Bool, true, leb, if◌then◌else◌, none, some, List, [], ◌∷◌, arith,
}
use os2compat.System.{ok}
use os2compat.Io.Scandir.{Runtime, entries, sort_list, scandir}
use os2compat.Io.Scandir.Outcome.{HeapLaws, Left, scandir-Left}
use os2compat.Io.Scandir.Success.{scandir-selected}

abbrev insert : ℕ → List ℕ → List ℕ
insert x [] = x ∷ []
insert x (y ∷ ys) = let rest = insert x ys in if leb x y then x ∷ y ∷ ys else y ∷ rest

abbrev sort : List ℕ → List ℕ
sort [] = []
sort (x ∷ xs) = insert x (sort xs)

abbrev counted : Runtime
counted = record {
  World = ℕ;
  Dirent = ℕ;
  size_ptr = 4;
  size_dirent = 280;
  malloc = λ w n. (w + 1, true);
  realloc = λ w b n. (w + (if b then 1 else 0), true);
  free = λ w. w - 1;
  live = λ w. w;
  Compare = Unit {0};
  qsort = λ c ds. sort ds;
}

counted-HeapLaws : HeapLaws counted
counted-HeapLaws = record {
  malloc_live = λ w n. refl;
  realloc_live = λ w b n. refl;
  free_live = λ w h. omega arith;
}

abbrev small : ℕ → Bool
small d = leb d 7

scandir-Left_example :
    Left counted 5
      (some small)
      (9 ∷ 4 ∷ 2 ∷ 7 ∷ [])
      none
      (some tt)
      (scandir counted 5 (entries (9 ∷ 4 ∷ 2 ∷ 7 ∷ []) none) (some small) (some tt))
scandir-Left_example =
    (scandir-Left counted counted-HeapLaws 5 (some small) (some tt)).1 (9 ∷ 4 ∷ 2 ∷ 7 ∷ []) none

scandir-selected_example :
    (scandir counted 5 (entries (9 ∷ 4 ∷ 2 ∷ 7 ∷ []) none) (some small) (some tt)).1
    ≡ ok (2 ∷ 4 ∷ 7 ∷ [])
unfolding sort_list
scandir-selected_example =
    scandir-selected counted (λ w n. refl) (λ w b n. refl) 5 (9 ∷ 4 ∷ 2 ∷ 7 ∷ []) (some small)
      (some tt)
