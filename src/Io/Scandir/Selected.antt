-- ===== src/Io/Scandir/Selected.antt =====
-- io/scandir.c: the entries that the selector of `os2compat_scandir` takes.
use os2compat.Prelude.{
  ◌≡◌, refl, ap, inl, inr, Bool, if◌then◌else◌, Option, List, [], ◌∷◌, ◌++◌, Bool-cases,
}
use os2compat.Io.Scandir.{Runtime, takes_entry}

module _ (rt : Runtime) where
  open rt use {Dirent}

  -- The entries that the selector takes, in their order.
  abbrev pub selected : Option (Dirent → Bool) → List Dirent → List Dirent
  selected sel [] = []
  selected sel (d ∷ ds) =
      let rest = selected sel ds in if takes_entry rt sel d then d ∷ rest else rest

  pub append_nil : (ds : List Dirent) → ds ≡ ds ++ []
  append_nil [] = refl
  append_nil (d ∷ ds) = ap (λ r. d ∷ r) (append_nil ds)

  pub append_assoc : (xs ys zs : List Dirent) → (xs ++ ys) ++ zs ≡ xs ++ (ys ++ zs)
  append_assoc [] ys zs = refl
  append_assoc (x ∷ xs) ys zs = ap (λ r. x ∷ r) (append_assoc xs ys zs)

  -- What an entry adds to the list.
  abbrev pub one : Option (Dirent → Bool) → Dirent → List Dirent
  one sel d = if takes_entry rt sel d then d ∷ [] else []

  pub one-selected :
      (sel : Option (Dirent → Bool)) (d : Dirent) (ds : List Dirent)
      → one sel d ++ selected sel ds ≡ selected sel (d ∷ ds)
  one-selected sel d ds = elim (Bool-cases (takes_entry rt sel d)) [
    | inl t ↦ rw t refl
    | inr t ↦ rw t refl
  ]
