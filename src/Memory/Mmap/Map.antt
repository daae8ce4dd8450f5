-- ===== src/Memory/Mmap/Map.antt =====
-- memory/mmap.c: `os2compat_mmap` and `os2compat_mmap_anon`.
use os2compat.Prelude.{pos, ℕ, if◌then◌else◌, Bool, List, ◌∷◌, ℤ, negsuc}
use os2compat.System.{einval, Result, ok, fail, Status}
use os2compat.Memory.Os.{Os}
use os2compat.Memory.Mmap.{has, set_flag, map_shared, map_anon, whole_file, add_word, Mapping}
use os2compat.Memory.Mmap.File.{read_from_file}
use os2compat.Memory.Mmap.Object.{free_mem}
use os2compat.Memory.Mmap.Place.{Placed, refused, place}
use os2compat.Memory.Mmap.Unmap.{Process, munmap, mprotect}

-- The new entry of the list.
unfoldable pub new_mapping : Placed → ℕ → ℕ → ℕ → Mapping
new_mapping q len prot off = record {
  addr = q.ret;
  len = len;
  flags = q.flags;
  fd = q.fildes;
  off = off;
  base = q.shared_base;
  prot = prot;
  shared_name = q.shared_name;
}

module _ (os : Os) where
  open os use {World, getpagesize, malloc}

  -- The entry goes in front of the list, once `malloc` has given memory for it.
  unfoldable pub insert_allocated : List Mapping → Mapping → World × Status → Process World × Status
  unfolding free_mem
  insert_allocated maps m (w, fail e) =
      (record { world = free_mem os w m.addr m.base m.flags; maps = maps }, fail e)
  insert_allocated maps m (w, ok _) = (record { world = w; maps = m ∷ maps }, ok tt)

  unfoldable pub insert_mapping : Process World → Mapping → Process World × Status
  unfolding insert_allocated
  insert_mapping p m = insert_allocated p.maps m (malloc p.world)

  -- The file's contents are read into the new mapping, or the whole file into a new object.
  unfoldable pub fill : World → Mapping → Bool → World × Status
  unfolding read_from_file
  fill w m read_file =
      if read_file
      then (if has m.flags map_shared
          then read_from_file os w m.fd (pos 0) (add_word m.base getpagesize) whole_file
          else read_from_file os w m.fd (pos m.off) m.addr m.len)
      else (w, ok tt)

  -- What follows a step on the new mapping: where it fails the mapping is unmapped again, and its
  -- error is kept.
  unfoldable pub or_unmap : Process World → Mapping → World × Status → Process World × Status
  unfolding munmap
  or_unmap p m (w, ok _) = (record p { world = w }, ok tt)
  or_unmap p m (w, fail e) = ((munmap os (record p { world = w }) m.addr m.len).0, fail e)

  -- The address is returned.
  unfoldable pub answer : Mapping → Process World × Status → Process World × Result ℕ
  answer m (p, fail e) = (p, fail e)
  answer m (p, ok _) = (p, ok m.addr)

  -- The protection of the pages, once they are filled.
  unfoldable pub protect : Mapping → Process World × Status → Process World × Result ℕ
  unfolding or_unmap mprotect answer
  protect m (p, fail e) = (p, fail e)
  protect m (p, ok _) = answer m (or_unmap p m (mprotect os p m.addr m.len m.prot))

  -- From the insertion into the list to the end.
  unfoldable pub finish_map : Mapping → Bool → Process World × Status → Process World × Result ℕ
  unfolding protect fill
  finish_map m read_file (p, fail e) = (p, fail e)
  finish_map m read_file (p, ok _) = protect m (or_unmap p m (fill p.world m read_file))

  -- `os2compat_mmap` once it has tried to place the memory.
  unfoldable pub map_placed :
      List Mapping → ℕ → ℕ → ℕ → World × Result Placed → Process World × Result ℕ
  unfolding insert_mapping finish_map new_mapping
  map_placed maps len prot off (w, fail e) = (record { world = w; maps = maps }, fail e)
  map_placed maps len prot off (w, ok q) =
      let m = new_mapping q len prot off in
      finish_map m q.read_file (insert_mapping (record { world = w; maps = maps }) m)

  -- `os2compat_mmap`; `ok` is the address, `fail` MAP_FAILED with its `errno`.
  unfoldable pub mmap : Process World → ℕ → ℕ → ℕ → ℕ → ℤ → ℕ → Process World × Result ℕ
  unfolding map_placed
  mmap p addr len prot flags fildes off =
      if refused os p.world addr prot flags fildes off
      then (p, fail einval)
      else map_placed p.maps len prot off (place os p.world addr len flags fildes off)

  -- `os2compat_mmap_anon`
  unfoldable pub mmap_anon : Process World → ℕ → ℕ → ℕ → ℕ → ℕ → Process World × Result ℕ
  mmap_anon p addr len prot flags off =
      mmap p addr len prot (set_flag flags map_anon) (negsuc 0) off
