-- ===== src/Memory/Mmap/Unmap.antt =====
-- memory/mmap.c: `os2compat_msync`, `os2compat_munmap` and `os2compat_mprotect`.
use os2compat.Prelude.{
  ℕ, pos, ◌%◌, ◌==◌, if◌then◌else◌, Bool, not, ◌||◌, ◌&&◌, Option, none, some, List, [], ◌∷◌,
}
use os2compat.System.{einval, ok, fail, Status}
use os2compat.Memory.Os.{Os, pag_read}
use os2compat.Memory.Mmap.{
  has, prot_write, map_shared, map_anon, ms_sync, ms_async, ms_invalidate, whole_file, add_word,
  sub_word, Mapping, os2, find_covering, find_exact, remove_exact,
}
use os2compat.Memory.Mmap.File.{to_int, write_to_file, read_from_file}
use os2compat.Memory.Mmap.Object.{status, get_shared_name, shared_name_max_len, set_mem, free_mem}

-- The process: the world and the list `m_mmap`.
pub record Process (W : Type 0) : Type 0 where
  pub world : W
  pub maps : List Mapping

-- The mapping is written back before it goes.
unfoldable pub must_sync : Mapping → Bool
must_sync m = has m.flags map_shared && not (has m.flags map_anon) && has m.prot prot_write

module _ (os : Os) where
  open os use {World, getpagesize, dos_get_named_shared_mem, close}

  -- `msync` writes the range back. The offset is a difference of two pointers, an `int`.
  unfoldable pub sync_write : World → ℕ → ℕ → ℕ → Mapping → World × Status
  unfolding write_to_file to_int
  sync_write w addr len flags m =
      if not (has flags ms_async) && has m.flags map_shared && has m.prot prot_write
      then write_to_file os w m.fd (to_int (sub_word (add_word m.off addr) m.addr)) addr len
      else (w, ok tt)

  -- `msync` reads the file again into the shared object of that name.
  unfoldable pub sync_read_object : World → Mapping → World × Status
  unfolding get_shared_name read_from_file
  sync_read_object w m = elim (get_shared_name os w m.fd (shared_name_max_len os)) [
    | fail e ↦ (w, fail e)
    | ok name ↦
        (let (v, rc, base) = dos_get_named_shared_mem w name (pag_read ∷ []) in
          if rc == 0
          then read_from_file os v m.fd (pos 0) (add_word base getpagesize) whole_file
          else (v, status (os2 rc)))
  ]

  -- The test is on the flags of the call, as the code has it.
  unfoldable pub sync_read : ℕ → Mapping → World × Status → World × Status
  unfolding sync_read_object
  sync_read flags m (w, fail e) = (w, fail e)
  sync_read flags m (w, ok _) =
      if has flags ms_invalidate && has flags map_shared then sync_read_object w m else (w, ok tt)

  -- `msync` once the mapping is looked up.
  unfoldable pub sync_mapping : World → ℕ → ℕ → ℕ → Option Mapping → World × Status
  unfolding sync_write sync_read
  sync_mapping w addr len flags none = (w, fail einval)
  sync_mapping w addr len flags (some m) =
      if has m.flags map_anon then (w, ok tt) else sync_read flags m (sync_write w addr len flags m)

  -- The refusals of `msync` before the lookup.
  unfoldable pub sync_refused : ℕ → ℕ → Bool
  sync_refused addr flags =
      not (flags == 0) && not (has flags ms_async || has flags ms_sync || has flags ms_invalidate)
      || has flags ms_async && has flags ms_sync
      || not (addr % getpagesize == 0)

  -- `os2compat_msync`
  unfoldable pub msync : Process World → ℕ → ℕ → ℕ → World × Status
  unfolding sync_refused sync_mapping
  msync p addr len flags =
      if sync_refused addr flags
      then (p.world, fail einval)
      else sync_mapping p.world addr len flags (find_covering addr len p.maps)

  -- `munmap` behind its `msync`: the descriptor, the memory and the entry go.
  unfoldable pub release : Process World → Mapping → World × Status → Process World × Status
  release p m (w, fail e) = (record p { world = w }, fail e)
  release p m (w, ok _) =
      let v = if has m.flags map_shared then close w m.fd else w in
      (
        record {
          world = free_mem os v m.addr m.base m.flags;
          maps = remove_exact m.addr m.len p.maps;
        },
        ok tt,
      )

  -- `munmap` once the mapping is looked up.
  unfoldable pub unmap_found : Process World → Option Mapping → Process World × Status
  unfolding release must_sync
  unmap_found p none = (p, fail einval)
  unmap_found p (some m) =
      release p m (if must_sync m then msync p m.addr m.len ms_sync else (p.world, ok tt))

  -- `os2compat_munmap`
  unfoldable pub munmap : Process World → ℕ → ℕ → Process World × Status
  unfolding unmap_found
  munmap p addr len =
      if addr % getpagesize == 0
      then unmap_found p (find_exact addr len p.maps)
      else (p, fail einval)

  -- `os2compat_mprotect`
  unfoldable pub mprotect : Process World → ℕ → ℕ → ℕ → World × Status
  unfolding set_mem
  mprotect p addr len prot =
      if addr % getpagesize == 0
      then elim (find_covering addr len p.maps) [
        | none ↦ (p.world, fail einval)
        | some m ↦ set_mem os p.world addr len prot
      ]
      else (p.world, fail einval)
