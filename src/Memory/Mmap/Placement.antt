-- ===== src/Memory/Mmap/Placement.antt =====
-- memory/mmap.c: what the memory of a new mapping satisfies, whichever way it was had.
use os2compat.Prelude.{
  ℕ, zero, suc, ◌%◌, ◌==◌, ◌≡◌, refl, inl, inr, true, false, not, ◌||◌, Option, none, some, List,
  [], ◌∷◌, ℤ, Bool-cases, arith,
}
use os2compat.System.{Result, ok, fail}
use os2compat.Memory.Os.{Os, Name, MemFlag, perm, commit, obj_any, obj_fork}
use os2compat.Memory.Mmap.{
  has, set_flag, map_shared, map_fixed, map_allocated, map_anon, add_word, os2, rc2errno,
}
use os2compat.Memory.Mmap.File.{to_size}
use os2compat.Memory.Mmap.Object.{get_shared_name, shared_name_max_len}
use os2compat.Memory.Mmap.Place.{
  Placed, placed, refused, place_fixed, place_private, alloc_shared, place_anon, place_alias,
  place_object, place_existing, place_named, place_file, place_by, unplaced, place,
}

-- The documented behaviour of OS/2: memory comes in whole pages.
pub record GivesPages (os : Os) : Type 0 where
  pub ex :
      (w : os.World) (a len : ℕ) (fl : List MemFlag)
      → let (v, rc, addr) = os.dos_alloc_mem_ex w a len fl in rc ≡ 0 → addr % os.getpagesize ≡ 0
  pub shared :
      (w : os.World) (name : Option Name) (len : ℕ) (fl : List MemFlag)
      → let (v, rc, addr) = os.dos_alloc_shared_mem w name len fl in
        rc ≡ 0 → addr % os.getpagesize ≡ 0
  pub alias :
      (w : os.World) (a len : ℕ) (fl : List MemFlag)
      → let (v, rc, addr) = os.dos_alias_mem w a len fl in rc ≡ 0 → addr % os.getpagesize ≡ 0

-- The flags kept but for MAP_ALLOCATED, and an aligned address.
abbrev pub Good : Os → ℕ → Result Placed → Type 0
Good os flags (fail e) = Unit
Good os flags (ok q) =
    (q.ret % os.getpagesize ≡ 0)
    × (has q.flags map_shared ≡ has flags map_shared)
    × (has q.flags map_anon ≡ has flags map_anon)

set_flag-allocated :
    (flags : ℕ)
    → (has (set_flag flags map_allocated) map_shared ≡ has flags map_shared)
      × (has (set_flag flags map_allocated) map_anon ≡ has flags map_anon)
set_flag-allocated flags = (ground arith, ground arith)

module _ (os : Os) (pages : GivesPages os) where
  open os use {World, getpagesize}

  placed-Good :
      (flags rc : ℕ) (q : Placed)
      → (rc ≡ 0 → Good os flags (ok q))
      → Good os flags (placed (os2 rc) q)
  unfolding rc2errno
  placed-Good flags zero q h = h refl
  placed-Good flags (suc rc) q h = tt

  place_fixed-Good :
      (w : World) (addr len : ℕ) (p : Placed)
      → addr % getpagesize ≡ 0
      → Good os p.flags (place_fixed os w addr len p).1
  unfolding place_fixed
  place_fixed-Good w addr len p h =
      let (rc, is_free, committed) = os.dos_query_mem w addr in
      elim (Bool-cases (not (rc == 0) || is_free)) [
        | inl fresh ↦ rw fresh (
            placed-Good p.flags _ _ λ z. (
              pages.ex w addr len _ z,
              (set_flag-allocated p.flags).0,
              (set_flag-allocated p.flags).1,
            ))
        | inr used ↦ rw used (placed-Good p.flags _ _ λ z. (h, refl, refl))
      ]

  place_private-Good :
      (w : World) (len : ℕ) (p : Placed) → Good os p.flags (place_private os w len p).1
  unfolding place_private
  place_private-Good w len p =
      let (v, rc, ret) = os.dos_alloc_mem_ex w 0 len (perm ∷ commit ∷ obj_fork ∷ obj_any ∷ []) in
      elim (Bool-cases (rc == 0)) [
        | inl high ↦ rw high (pages.ex w 0 len _ (ground arith), refl, refl)
        | inr low ↦ rw low (placed-Good p.flags _ _ λ z. (pages.ex v 0 len _ z, refl, refl))
      ]

  alloc_shared-aligned :
      (w : World) (name : Option Name) (len : ℕ) (fl : List MemFlag)
      → let (v, rc, base) = alloc_shared os w name len fl in rc ≡ 0 → base % getpagesize ≡ 0
  unfolding alloc_shared
  alloc_shared-aligned w name len fl =
      let (v, rc, base) = os.dos_alloc_shared_mem w name len (obj_any ∷ fl) in
      elim (Bool-cases (rc == 0)) [
        | inl high ↦ rw high (pages.shared w name len (obj_any ∷ fl))
        | inr low ↦ rw low (pages.shared v name len fl)
      ]

  place_anon-Good : (w : World) (len : ℕ) (p : Placed) → Good os p.flags (place_anon os w len p).1
  unfolding place_anon
  place_anon-Good w len p =
      placed-Good p.flags _ _ λ z. (alloc_shared-aligned w none len _ z, refl, refl)

  place_alias-Good :
      (w : World) (len off : ℕ) (p : Placed) → Good os p.flags (place_alias os w len off p).1
  unfolding place_alias
  place_alias-Good w len off p =
      let at = add_word p.shared_base (add_word getpagesize off) in
      let (v, rc, ret) = os.dos_alias_mem w at len [] in
      elim (Bool-cases (rc == 0)) [
        | inl good ↦ rw good (pages.alias w at len [] (ground arith), refl, refl)
        | inr bad ↦ rw bad (placed-Good p.flags rc p λ z. absurd (ground arith))
      ]

  place_object-Good :
      (w : World) (len off : ℕ) (p : Placed) → Good os p.flags (place_object os w len off p).1
  unfolding place_object
  place_object-Good w len off p = go (os.dup w p.fildes).1
    where
      v : World
      v = (os.dup w p.fildes).0

      go :
          (r : Result ℤ)
          → Good os p.flags (
              let out : World × Result Placed = elim r [
                | fail e ↦ ((os.dos_free_mem v p.shared_base).0, fail e)
                | ok fd ↦ place_alias os (os.set_cloexec v fd) len off (record p { fildes = fd })
              ] in
              out.1)
      go (fail e) = tt
      go (ok fd) = place_alias-Good (os.set_cloexec v fd) len off (record p { fildes = fd })

  place_existing-Good :
      (w : World) (len off : ℕ) (p : Placed) → Good os p.flags (place_existing os w len off p).1
  unfolding place_existing
  place_existing-Good w len off p =
      let (v, rc, base) = os.dos_get_named_shared_mem w p.shared_name (perm ∷ []) in
      elim (Bool-cases (rc == 0)) [
        | inl good ↦
            rw good
              (place_object-Good v len off (record p { shared_base = base; read_file = false }))
        | inr bad ↦ rw bad (placed-Good p.flags rc p λ z. absurd (ground arith))
      ]

  place_named-Good :
      (w : World) (len off : ℕ) (p : Placed) → Good os p.flags (place_named os w len off p).1
  unfolding place_named
  place_named-Good w len off p =
      let (v, size) = os.filelength w p.fildes in
      let (u, rc, base) =
        alloc_shared os v (some p.shared_name) (add_word getpagesize (to_size size))
          (perm ∷ commit ∷ []) in
      elim (Bool-cases (rc == 0)) [
        | inl good ↦ rw good (place_object-Good u len off (record p { shared_base = base }))
        | inr bad ↦ rw bad (place_existing-Good u len off p)
      ]

  place_file-Good :
      (w : World) (len off : ℕ) (p : Placed) → Good os p.flags (place_file os w len off p).1
  unfolding place_file
  place_file-Good w len off p = go (get_shared_name os w p.fildes (shared_name_max_len os))
    where
      go :
          (r : Result Name)
          → Good os p.flags (
              let out : World × Result Placed = elim r [
                | fail e ↦ (w, fail e)
                | ok name ↦ place_named os w len off (record p { shared_name = name })
              ] in
              out.1)
      go (fail e) = tt
      go (ok name) = place_named-Good w len off (record p { shared_name = name })

  place_by-Good :
      (w : World) (addr len off : ℕ) (p : Placed)
      → (has p.flags map_fixed ≡ true → addr % getpagesize ≡ 0)
      → Good os p.flags (place_by os w addr len off p).1
  unfolding place_by
  place_by-Good w addr len off p aligned = elim (Bool-cases (has p.flags map_fixed)) [
    | inl fixed ↦ rw fixed (place_fixed-Good w addr len p (aligned fixed))
    | inr free ↦ elim (Bool-cases (has p.flags map_shared)) [
      | inr private ↦ rw (free, private) (place_private-Good w len p)
      | inl shared ↦ elim (Bool-cases (has p.flags map_anon)) [
        | inl anon ↦ rw (free, shared, anon) (place_anon-Good w len p)
        | inr file ↦ rw (free, shared, file) (place_file-Good w len off p)
      ]
    ]
  ]

  -- Whatever way the memory was had, its address is a multiple of the page size and its flags say
  -- of sharing what the caller's said.
  pub place-Good :
      (w : World) (addr len prot flags : ℕ) (fildes : ℤ) (off : ℕ)
      → refused os w addr prot flags fildes off ≡ false
      → Good os flags (place os w addr len flags fildes off).1
  unfolding place refused
  place-Good w addr len prot flags fildes off r =
      place_by-Good w addr len off (unplaced flags fildes) (λ fixed. ground arith)
