-- ===== src/Memory/Mmap/Place.antt =====
-- memory/mmap.c: how `os2compat_mmap` comes by the memory of a new mapping.
use os2compat.Prelude.{
  ℕ, ◌%◌, ◌==◌, if◌then◌else◌, Bool, false, not, ◌||◌, ◌&&◌, Option, none, some, List, [], ◌∷◌, ℤ,
}
use os2compat.System.{Result, ok, fail}
use os2compat.Memory.Os.{Os, Name, MemFlag, perm, share, commit, obj_any, obj_fork, obj_location}
use os2compat.Memory.Mmap.{
  has, set_flag, prot_write, map_shared, map_private, map_fixed, map_allocated, map_anon, add_word,
  Rc, os2, rc2errno,
}
use os2compat.Memory.Mmap.File.{to_size}
use os2compat.Memory.Mmap.Object.{get_shared_name, shared_name_max_len}

-- The local variables of `os2compat_mmap` once the memory is there.
pub record Placed : Type 0 where
  pub ret : ℕ
  pub flags : ℕ
  pub fildes : ℤ
  pub shared_base : ℕ
  pub shared_name : Name
  pub read_file : Bool

-- The answer to an internal code: the placed memory where it is 0.
abbrev pub placed : Rc → Placed → Result Placed
placed rc p = elim (rc2errno rc) [ none ↦ ok p | some e ↦ fail e ]

-- The variables as they are initialised.
abbrev pub unplaced : ℕ → ℤ → Placed
unplaced flags fildes = record {
  ret = 0;
  flags = flags;
  fildes = fildes;
  shared_base = 0;
  shared_name = [];
  read_file = not (has flags map_anon);
}

module _ (os : Os) where
  open os use {
    World, getpagesize, dos_query_mem, dos_alloc_mem_ex, dos_set_mem, dos_alloc_shared_mem,
    dos_get_named_shared_mem, dos_free_mem, dos_alias_mem, load_ulong, store_ulong, filelength,
    set_cloexec, dup, may_write,
  }

  -- The checks of `os2compat_mmap`, each of which returns EINVAL.
  unfoldable pub refused : World → ℕ → ℕ → ℕ → ℤ → ℕ → Bool
  refused w addr prot flags fildes off =
      has flags map_fixed && not (addr % getpagesize == 0)
      || not (off % getpagesize == 0)
      || has flags map_shared && has flags map_private
      || not (has flags map_shared || has flags map_private)
      || has flags map_fixed && has flags map_shared
      || not (has flags map_anon)
        && has flags map_shared
        && has prot prot_write
        && not (may_write w fildes)

  -- MAP_FIXED: free pages are allocated, others are committed where they are not yet.
  unfoldable pub place_fixed : World → ℕ → ℕ → Placed → World × Result Placed
  unfolding rc2errno
  place_fixed w addr len p =
      let (rc, is_free, committed) = dos_query_mem w addr in
      if not (rc == 0) || is_free
      then (let (v, rc', ret) =
            dos_alloc_mem_ex w addr len (perm ∷ commit ∷ obj_location ∷ obj_fork ∷ []) in
          (v, placed (os2 rc') (record p { ret = ret; flags = set_flag p.flags map_allocated })))
      else (let (v, rc') =
            dos_set_mem w addr len (perm ∷ (if committed then [] else commit ∷ [])) in
          (v, placed (os2 rc') (record p { ret = addr })))

  -- MAP_PRIVATE: high memory first, then low memory.
  unfoldable pub place_private : World → ℕ → Placed → World × Result Placed
  unfolding rc2errno
  place_private w len p =
      let (v, rc, ret) = dos_alloc_mem_ex w 0 len (perm ∷ commit ∷ obj_fork ∷ obj_any ∷ []) in
      if rc == 0
      then (v, ok (record p { ret = ret }))
      else (let (u, rc', ret') = dos_alloc_mem_ex v 0 len (perm ∷ commit ∷ obj_fork ∷ []) in
          (u, placed (os2 rc') (record p { ret = ret' })))

  -- The two tries of `DosAllocSharedMem`: the world, the code and the base.
  unfoldable pub alloc_shared : World → Option Name → ℕ → List MemFlag → World × ℕ × ℕ
  alloc_shared w name len fl =
      let (v, rc, base) = dos_alloc_shared_mem w name len (obj_any ∷ fl) in
      if rc == 0 then (v, rc, base) else dos_alloc_shared_mem v name len fl

  -- MAP_SHARED with MAP_ANON.
  unfoldable pub place_anon : World → ℕ → Placed → World × Result Placed
  unfolding rc2errno alloc_shared
  place_anon w len p =
      let (v, rc, base) = alloc_shared w none len (perm ∷ commit ∷ share ∷ []) in
      (v, placed (os2 rc) (record p { ret = base; shared_base = base }))

  -- The number of users, at the start of the object.
  unfoldable pub count_user : World → Placed → World
  count_user w p =
      store_ulong w p.shared_base
        (if p.read_file then 1 else add_word (load_ulong w p.shared_base) 1)

  -- The alias of the object at the file's offset.
  unfoldable pub place_alias : World → ℕ → ℕ → Placed → World × Result Placed
  unfolding rc2errno count_user
  place_alias w len off p =
      let (v, rc, ret) =
        dos_alias_mem w (add_word p.shared_base (add_word getpagesize off)) len [] in
      if rc == 0
      then (count_user v p, ok (record p { ret = ret }))
      else ((dos_free_mem v p.shared_base).0, placed (os2 rc) p)

  -- The object of a file is there: the descriptor is duplicated, and the range aliased.
  unfoldable pub place_object : World → ℕ → ℕ → Placed → World × Result Placed
  unfolding place_alias
  place_object w len off p =
      let (v, dupped) = dup w p.fildes in
      elim dupped [
        | fail e ↦ ((dos_free_mem v p.shared_base).0, fail e)
        | ok fd ↦ place_alias (set_cloexec v fd) len off (record p { fildes = fd })
      ]

  -- The object that another mapping of the file has made; it is not read again.
  unfoldable pub place_existing : World → ℕ → ℕ → Placed → World × Result Placed
  unfolding rc2errno place_object
  place_existing w len off p =
      let (v, rc, base) = dos_get_named_shared_mem w p.shared_name (perm ∷ []) in
      if rc == 0
      then place_object v len off (record p { shared_base = base; read_file = false })
      else (v, placed (os2 rc) p)

  -- The object of the file by its name, made or, where that fails, got.
  unfoldable pub place_named : World → ℕ → ℕ → Placed → World × Result Placed
  unfolding alloc_shared place_object place_existing
  place_named w len off p =
      let (v, size) = filelength w p.fildes in
      let (u, rc, base) =
        alloc_shared v (some p.shared_name) (add_word getpagesize (to_size size))
          (perm ∷ commit ∷ []) in
      if rc == 0
      then place_object u len off (record p { shared_base = base })
      else place_existing u len off p

  -- MAP_SHARED of a file.
  unfoldable pub place_file : World → ℕ → ℕ → Placed → World × Result Placed
  unfolding place_named get_shared_name
  place_file w len off p = elim (get_shared_name os w p.fildes (shared_name_max_len os)) [
    | fail e ↦ (w, fail e)
    | ok name ↦ place_named w len off (record p { shared_name = name })
  ]

  -- The memory of the new mapping, by its flags.
  unfoldable pub place_by : World → ℕ → ℕ → ℕ → Placed → World × Result Placed
  unfolding place_fixed place_private place_anon place_file
  place_by w addr len off p =
      if has p.flags map_fixed
      then place_fixed w addr len p
      else if has p.flags map_shared
      then (if has p.flags map_anon then place_anon w len p else place_file w len off p)
      else place_private w len p

  unfoldable pub place : World → ℕ → ℕ → ℕ → ℤ → ℕ → World × Result Placed
  unfolding place_by
  place w addr len flags fildes off = place_by w addr len off (unplaced flags fildes)
