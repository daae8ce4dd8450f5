-- ===== src/Memory/Mmap/Fork.antt =====
-- memory/mmap.c: what a forked child does to have its parent's shared mappings.
use os2compat.Prelude.{ℕ, ◌==◌, if◌then◌else◌, Bool, true, false, not, ◌&&◌, List, [], ◌∷◌, Array}
use os2compat.System.{ok, fail, Status}
use os2compat.Memory.Os.{Os, perm, pag_read}
use os2compat.Memory.Mmap.{has, map_shared, map_anon, add_word, Mapping}
use os2compat.Memory.Mmap.Object.{set_mem}
use os2compat.Memory.Mmap.Alias.{alias_at_address}

abbrev pub succeeded : Status → Bool
succeeded (ok _) = true
succeeded (fail _) = false

-- The operations of a fork callback.
pub data ForkOp : Type 0 where
  fork_op_fork_child other_fork_op : ForkOp

module _ (os : Os) where
  open os use {
    World, getpagesize, dos_get_shared_mem, dos_get_named_shared_mem, load_ulong, store_ulong,
  }

  -- `mmapGetAnonMem` for one mapping; `false` ends it with -1.
  unfoldable pub get_anon_one : Mapping → World → World × Bool
  unfolding set_mem
  get_anon_one m w =
      if has m.flags map_anon && has m.flags map_shared
      then (let (v, rc) = dos_get_shared_mem w m.addr (pag_read ∷ []) in
          if rc == 0
          then (let (u, r) = set_mem os v m.addr m.len m.prot in (u, succeeded r))
          else (v, false))
      else (w, true)

  -- A shared file: the object by its name, the alias at the parent's address, the protection, and
  -- one more user. `tmps` is what the array of `aliasAtAddress` starts with.
  unfoldable pub get_object : Array ℕ → Mapping → World → World × Bool
  unfolding set_mem alias_at_address
  get_object tmps m w =
      let (v, rc, base) = dos_get_named_shared_mem w m.shared_name (perm ∷ []) in
      if rc == 0
      then (let (u, rc') =
            alias_at_address os tmps v (add_word (add_word m.base getpagesize) m.off) m.len
              m.addr in
          if rc' == 0
          then (let (x, r) = set_mem os u m.addr m.len m.prot in
              if succeeded r
              then (store_ulong x m.base (add_word (load_ulong x m.base) 1), true)
              else (x, false))
          else (u, false))
      else (v, false)

  -- `mmapGetSharedMem` for one mapping.
  unfoldable pub get_shared_one : Array ℕ → Mapping → World → World × Bool
  unfolding get_object
  get_shared_one tmps m w =
      if has m.flags map_shared && not (has m.flags map_anon)
      then get_object tmps m w
      else (w, true)

  -- A loop over the mappings, newest first, up to the first that fails.
  unfoldable pub each_mapping :
      (Mapping → World → World × Bool) → List Mapping → World → World × Bool
  each_mapping f [] w = (w, true)
  each_mapping f (m ∷ ms) w =
      let (v, good) = f m w in let rest = each_mapping f ms v in if good then rest else (v, false)

  -- `mmapGetAnonMem`
  unfoldable pub get_anon_mem : List Mapping → World → World × Bool
  unfolding each_mapping get_anon_one
  get_anon_mem ms w = each_mapping get_anon_one ms w

  -- `mmapGetSharedMem`
  unfoldable pub get_shared_mem : Array ℕ → List Mapping → World → World × Bool
  unfolding each_mapping get_shared_one
  get_shared_mem tmps ms w = each_mapping (get_shared_one tmps) ms w

  -- `mmapInherit`
  unfoldable pub inherit : Array ℕ → List Mapping → World → World × Bool
  unfolding get_anon_mem get_shared_mem
  inherit tmps ms w =
      let (v, good) = get_anon_mem ms w in if good then get_shared_mem tmps ms v else (v, false)

  -- `forkChildCallback`
  unfoldable pub fork_child_callback : ForkOp → Array ℕ → List Mapping → World → World × Bool
  unfolding inherit
  fork_child_callback fork_op_fork_child tmps ms w = inherit tmps ms w
  fork_child_callback other_fork_op tmps ms w = (w, true)
