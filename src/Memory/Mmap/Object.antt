-- ===== src/Memory/Mmap/Object.antt =====
-- memory/mmap.c: names, protection and release of OS/2 memory objects.
use os2compat.Prelude.{
  ℕ, zero, suc, ◌+◌, ◌-◌, ◌==◌, if◌then◌else◌, leb, Bool, true, false, none, some, List, [], ◌∷◌,
  ◌++◌, map, ℤ,
}
use os2compat.System.{eoverflow, Result, ok, fail, Status}
use os2compat.Memory.Os.{Os, Name, MemFlag, pag_read, pag_write, pag_execute}
use os2compat.Memory.Mmap.{
  has, prot_read, prot_write, prot_exec, map_shared, map_fixed, map_allocated, map_anon, sub_word,
  Rc, os2, rc2errno,
}

-- A call's answer from an internal code.
abbrev pub status : Rc → Status
status rc = elim (rc2errno rc) [ none ↦ ok tt | some e ↦ fail e ]

-- No flag at all is PROT_NONE, for which pages are made readable.
abbrev pub or_readable : List MemFlag → List MemFlag
or_readable [] = pag_read ∷ []
or_readable (f ∷ fs) = f ∷ fs

abbrev pub flag_if : Bool → MemFlag → List MemFlag
flag_if true f = f ∷ []
flag_if false f = []

-- The flags of `mmapSetMem`.
unfoldable pub page_flags : ℕ → List MemFlag
page_flags prot = or_readable (
    flag_if (has prot prot_read) pag_read
    ++ (flag_if (has prot prot_write) pag_write ++ flag_if (has prot prot_exec) pag_execute))

-- `SHARED_NAME_PREFIX`, "\SHAREMEM\OS2MMAP\"
abbrev pub shared_name_prefix : Name
shared_name_prefix =
    b'\\' ∷ b'S' ∷ b'H' ∷ b'A' ∷ b'R' ∷ b'E' ∷ b'M' ∷ b'E' ∷ b'M' ∷ b'\\' ∷ b'O' ∷ b'S' ∷ b'2'
    ∷ b'M' ∷ b'M' ∷ b'A' ∷ b'P' ∷ b'\\' ∷ []

abbrev pub shared_name_prefix_len : ℕ
shared_name_prefix_len = 18

-- The second byte, the colon behind the drive letter, becomes an underscore.
unfoldable pub mask_drive : Name → Name
mask_drive [] = []
mask_drive (c ∷ []) = c ∷ b'_' ∷ []
mask_drive (c ∷ d ∷ r) = c ∷ b'_' ∷ r

-- The byte `/` becomes `\`.
unfoldable pub backslash : ℕ → ℕ
backslash c = if c == b'/' then b'\\' else c

-- The name that `mmapGetSharedNameFromFd` makes of a path.
unfoldable pub name_of_path : Name → Name
unfolding mask_drive backslash
name_of_path path = shared_name_prefix ++ map backslash (mask_drive path)

module _ (os : Os) where
  open os use {
    World, cch_max_path, fh_to_path, dos_set_mem, dos_free_mem, dos_free_mem_ex, load_ulong,
    store_ulong, holds,
  }

  -- `mmapGetSharedNameFromFd`
  unfoldable pub get_shared_name : World → ℤ → ℕ → Result Name
  unfolding name_of_path
  get_shared_name w fd size =
      if leb size shared_name_prefix_len
      then fail eoverflow
      else elim (fh_to_path w fd (size - shared_name_prefix_len)) [
        | fail e ↦ fail e
        | ok path ↦ ok (name_of_path path)
      ]

  -- `SHARED_NAME_MAX_LEN`
  abbrev pub shared_name_max_len : ℕ
  shared_name_max_len = shared_name_prefix_len + cch_max_path

  -- `mmapSetMem`
  unfoldable pub set_mem : World → ℕ → ℕ → ℕ → World × Status
  unfolding page_flags rc2errno
  set_mem w addr len prot =
      let (v, rc) = dos_set_mem w addr len (page_flags prot) in (v, status (os2 rc))

  -- `while( DosFreeMem( base ) == 0 );`, on fuel: a free that succeeds lets go of one hold.
  unfoldable pub free_all : ℕ → World → ℕ → World
  free_all zero w base = w
  free_all (suc fuel) w base =
      let (v, rc) = dos_free_mem w base in
      let rest = free_all fuel v base in if rc == 0 then rest else v

  -- The count at the start of a named object goes down by one, and the last user frees it.
  unfoldable pub drop_shared : World → ℕ → World
  unfolding free_all
  drop_shared w base =
      let count = sub_word (load_ulong w base) 1 in
      let v = store_ulong w base count in
      if count == 0 then free_all (suc (holds v base)) v base else v

  -- `mmapFreeMem`; `mmapRemoveAnonMem` does nothing where anonymous memory is inherited by handle
  -- (USE_SHARED_MEM_FOR_ANON is 0).
  unfoldable pub free_mem : World → ℕ → ℕ → ℕ → World
  unfolding drop_shared
  free_mem w addr base flags =
      if has flags map_fixed
      then (if has flags map_allocated then (dos_free_mem_ex w addr).0 else w)
      else (let v = (dos_free_mem_ex w addr).0 in
          if has flags map_shared
          then (if has flags map_anon then v else drop_shared v base)
          else v)
