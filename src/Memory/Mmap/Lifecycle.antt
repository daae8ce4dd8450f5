-- ===== src/Memory/Mmap/Lifecycle.antt =====
-- memory/mmap.c: what `os2compat_mmap` does to the list of mappings, on success and on failure.
use os2compat.Prelude.{
  ℕ, ◌%◌, ◌≡◌, refl, sym, ap, inl, inr, Bool, false, not, ◌&&◌, List, [], ◌∷◌, ℤ, Bool-cases,
}
use os2compat.System.{Result, ok, fail, Status}
use os2compat.Memory.Os.{Os}
use os2compat.Memory.Mmap.{has, prot_write, map_shared, map_anon, Mapping}
use os2compat.Memory.Mmap.Place.{Placed, refused}
use os2compat.Memory.Mmap.Placement.{GivesPages, Good, place-Good}
use os2compat.Memory.Mmap.Unmap.{Process, must_sync, munmap, mprotect}
use os2compat.Memory.Mmap.Map.{
  new_mapping, insert_allocated, insert_mapping, answer, fill, or_unmap, protect, finish_map,
  map_placed, mmap,
}
use os2compat.Memory.Mmap.Registry.{munmap_middle}

-- The list after a call of mmap(): `m` in front of it on success, as before on failure.
abbrev Outcome : {W : Type 0} → List Mapping → Mapping → Process W × Result ℕ → Type 0
Outcome maps m (q, ok a) = (q.maps ≡ m ∷ maps) × (a ≡ m.addr)
Outcome maps m (q, fail e) = q.maps ≡ maps

abbrev Kept : {W : Type 0} → List Mapping → Mapping → Process W × Status → Type 0
Kept maps m (q, ok _) = q.maps ≡ m ∷ maps
Kept maps m (q, fail e) = q.maps ≡ maps

module _ (os : Os) (m : Mapping) (maps : List Mapping) where
  open os use {World, getpagesize}

  -- A mapping that need not be written back goes as it came.
  unmap_head :
      (p : Process World)
      → p.maps ≡ m ∷ maps
      → m.addr % getpagesize ≡ 0
      → must_sync m ≡ false
      → (munmap os p m.addr m.len).0.maps ≡ maps
  unmap_head p e h quiet =
      ap (λ (r : Process World × Status). r.0.maps) ((munmap_middle os p m [] maps h e tt).0 quiet)

  module _ (h : m.addr % getpagesize ≡ 0) (quiet : must_sync m ≡ false) where
    or_unmap-Kept :
        (p : Process World) (r : World × Status)
        → p.maps ≡ m ∷ maps
        → Kept maps m (or_unmap os p m r)
    unfolding or_unmap
    or_unmap-Kept p (w, ok _) e = e
    or_unmap-Kept p (w, fail b) e = unmap_head (record p { world = w }) e h quiet

    answer-Outcome : (r : Process World × Status) → Kept maps m r → Outcome maps m (answer os m r)
    unfolding answer
    answer-Outcome (p, fail b) e = e
    answer-Outcome (p, ok _) e = (e, refl)

    protect-Outcome : (r : Process World × Status) → Kept maps m r → Outcome maps m (protect os m r)
    unfolding protect
    protect-Outcome (p, fail b) e = e
    protect-Outcome (p, ok _) e =
        answer-Outcome _ (or_unmap-Kept p (mprotect os p m.addr m.len m.prot) e)

    finish_map-Outcome :
        (read_file : Bool) (r : Process World × Status)
        → Kept maps m r
        → Outcome maps m (finish_map os m read_file r)
    unfolding finish_map
    finish_map-Outcome read_file (p, fail b) e = e
    finish_map-Outcome read_file (p, ok _) e =
        protect-Outcome _ (or_unmap-Kept p (fill os p.world m read_file) e)

    insert_allocated-Kept : (r : World × Status) → Kept maps m (insert_allocated os maps m r)
    unfolding insert_allocated
    insert_allocated-Kept (w, fail e) = refl
    insert_allocated-Kept (w, ok _) = refl

    insert_mapping-Kept :
        (w : World) → Kept maps m (insert_mapping os (record { world = w; maps = maps }) m)
    unfolding insert_mapping
    insert_mapping-Kept w = insert_allocated-Kept (os.malloc w)

-- The entry that mmap() makes has the caller's range and protection, and shares as asked.
abbrev pub Asked : ℕ → ℕ → ℕ → ℕ → Mapping → Type 0
Asked len prot flags off m =
    (m.len ≡ len)
    × (m.prot ≡ prot)
    × (m.off ≡ off)
    × (has m.flags map_shared ≡ has flags map_shared)
    × (has m.flags map_anon ≡ has flags map_anon)

abbrev pub Mapped : {W : Type 0} → ℕ → List Mapping → ℕ → ℕ → ℕ → ℕ → Process W × Result ℕ → Type 0
Mapped page maps len prot flags off (q, ok a) =
    (m : Mapping) × (q.maps ≡ m ∷ maps) × (m.addr ≡ a) × (a % page ≡ 0) × Asked len prot flags off m
Mapped page maps len prot flags off (q, fail e) = q.maps ≡ maps

module _ (os : Os) (pages : GivesPages os) where
  open os use {World, getpagesize}

  Mapped-Outcome :
      (m : Mapping) (maps : List Mapping) (len prot flags off : ℕ) (r : Process World × Result ℕ)
      → m.addr % getpagesize ≡ 0
      → Asked len prot flags off m
      → Outcome maps m r
      → Mapped getpagesize maps len prot flags off r
  Mapped-Outcome m maps len prot flags off (q, fail e) h asked o = o
  Mapped-Outcome m maps len prot flags off (q, ok a) h asked o = (m, o.0, sym o.1, rw o.1 h, asked)

  map_placed-Mapped :
      (maps : List Mapping) (len prot flags off : ℕ) (r : World × Result Placed)
      → Good os flags r.1
      → has flags map_shared && not (has flags map_anon) && has prot prot_write ≡ false
      → Mapped getpagesize maps len prot flags off (map_placed os maps len prot off r)
  unfolding map_placed new_mapping
  map_placed-Mapped maps len prot flags off (w, fail e) good quiet = refl
  map_placed-Mapped maps len prot flags off (w, ok q) good quiet =
      let m = new_mapping q len prot off in
      let lazy : must_sync m ≡ false = (rw (must_sync, good.1, good.2) quiet) in
      let r = insert_mapping os (record { world = w; maps = maps }) m in
      Mapped-Outcome m maps len prot flags off (finish_map os m q.read_file r) good.0
        (refl, refl, refl, good.1, good.2)
        (finish_map-Outcome os m maps good.0 lazy q.read_file r
          (insert_mapping-Kept os m maps good.0 lazy w))

  -- A mapping that is not a writable shared file: on success the list gains exactly one entry, at
  -- the front, with the returned page-aligned address and what the caller asked for; on every
  -- failure the list is as before.
  pub mmap-Mapped :
      (p : Process World) (addr len prot flags : ℕ) (fildes : ℤ) (off : ℕ)
      → has flags map_shared && not (has flags map_anon) && has prot prot_write ≡ false
      → Mapped getpagesize p.maps len prot flags off (mmap os p addr len prot flags fildes off)
  unfolding mmap
  mmap-Mapped p addr len prot flags fildes off quiet =
      elim (Bool-cases (refused os p.world addr prot flags fildes off)) [
        | inl bad ↦ rw bad refl
        | inr good ↦ rw good (
            map_placed-Mapped p.maps len prot flags off _
              (place-Good os pages p.world addr len prot flags fildes off good) quiet)
      ]

  -- munmap() of what mmap() has just returned, for a request that is not for a writable shared
  -- file, succeeds and leaves the list as it was before.
  pub munmap-mmap :
      (p q : Process World) (addr len prot flags : ℕ) (fildes : ℤ) (off a : ℕ)
      → has flags map_shared && not (has flags map_anon) && has prot prot_write ≡ false
      → mmap os p addr len prot flags fildes off ≡ (q, ok a)
      → let (r, s) = munmap os q a len in (s ≡ ok tt) × (r.maps ≡ p.maps)
  unfolding must_sync
  munmap-mmap p q addr len prot flags fildes off a quiet e =
      let made : Mapped getpagesize p.maps len prot flags off (q, ok a) =
        (rw e at (mmap-Mapped p addr len prot flags fildes off quiet)) in
      let (m, maps, at, even, asked) = made in
      let (size, mprot, _, shared, anon) = asked in
      let lazy : must_sync m ≡ false = (rw (shared, anon, mprot) quiet) in
      let gone = (munmap_middle os q m [] p.maps (rw at even) maps tt).0 lazy in
      rw (← at, ← size)
        (
          ap (λ (r : Process World × Status). r.1) gone,
          ap (λ (r : Process World × Status). r.0.maps) gone,
        )
