-- ===== src/Process/Spawn2.antt =====
-- process/spawn2.c: the functions that are loaded from other libraries.
pub mod Runtime
pub mod Child
pub mod Redirect
use os2compat.Prelude.{
  ℕ, zero, suc, ltb, ◌+◌, ◌-◌, ◌*◌, ◌/◌, ◌%◌, ◌^◌, ◌==◌, if◌then◌else◌, is_some, Bool, true, false,
  not, ◌&&◌, ◌||◌, Option, none, some, List, [], ◌∷◌, ◌++◌, ℤ, pos, eq_ℤ, length,
}
use os2compat.System.{Errno, eisdir, enoent, enomem, enosys, Result, ok, fail, Status}
use os2compat.Process.Spawn2.Runtime.{
  Os, Dll, libcn0, libc066, libcx0, WaitCall, wait, waitpid, wait3, wait4, waitid, SymName,
  sym_wait, sym_waitpid_raw, sym_dos_wait_child, sym_spawn2, Target, std_wait, loaded, FdFlags, Str,
  Redir, StdFds, no_fds, simple_fds, xredir_fds, SpawnMode, Program,
}

-- A static pointer or handle that is `( void * )-1L` before it is first looked for.
pub data Cached : Type 0 where
  not_tried : Cached
  tried : Option ℕ → Cached

-- The static variables.
pub record Statics : Type 0 where
  pub libc_handle : Cached
  pub libcx_handle : Cached
  pub doscalls_handle : Cached
  pub libcx_spawn2 : Cached
  pub os2compat_wait : WaitCall → Option Target
  pub os2compat_waitpid_raw : Cached
  pub os2compat_dos_wait_child : Cached

pub record Machine (W : Type 0) : Type 0 where
  pub world : W
  pub statics : Statics

abbrev pub wait_index : WaitCall → ℕ
wait_index wait = 0
wait_index waitpid = 1
wait_index wait3 = 2
wait_index wait4 = 3
wait_index waitid = 4

abbrev pub set_wait : WaitCall → Target → (WaitCall → Option Target) → WaitCall → Option Target
set_wait call f known c = if wait_index c == wait_index call then some f else known c

module _ (os : Os) where
  open os use {
    World, dlopen, dlsym, dos_load_module, dos_query_proc_addr, malloc, hmalloc, free,
    dos_set_rel_max_fh, libc_fh, fcntl_getfd, fn_is_rel, make_path, max_path, searchenv2_one_file,
    call_wait, call_spawn2,
  }

  abbrev pub sym_in : World → Option ℕ → SymName → Option ℕ
  sym_in w none sym = none
  sym_in w (some handle) sym = dlsym w handle sym

  abbrev pub or_libc066 : World × Option ℕ → World × Option ℕ
  or_libc066 (w, none) = dlopen w libc066
  or_libc066 (w, some handle) = (w, some handle)

  -- `libc_handle`, once `load_libc_sym` has looked for it.
  unfoldable pub open_libc : World → Cached → World × Option ℕ
  open_libc w (tried handle) = (w, handle)
  open_libc w not_tried = or_libc066 (dlopen w libcn0)

  -- `load_libc_sym`
  unfoldable pub load_libc_sym : Machine World → SymName → Machine World × Option ℕ
  unfolding open_libc
  load_libc_sym m sym =
      let (w, handle) = open_libc m.world m.statics.libc_handle in
      (
        record { world = w; statics = record m.statics { libc_handle = tried handle } },
        sym_in w handle sym,
      )

  unfoldable pub open_libcx : World → Cached → World × Option ℕ
  open_libcx w (tried handle) = (w, handle)
  open_libcx w not_tried = dlopen w libcx0

  -- `load_libcx_sym`
  unfoldable pub load_libcx_sym : Machine World → SymName → Machine World × Option ℕ
  unfolding open_libcx
  load_libcx_sym m sym =
      let (w, handle) = open_libcx m.world m.statics.libcx_handle in
      (
        record { world = w; statics = record m.statics { libcx_handle = tried handle } },
        sym_in w handle sym,
      )

  unfoldable pub open_doscalls : World → Cached → World × Option ℕ
  open_doscalls w (tried handle) = (w, handle)
  open_doscalls w not_tried = dos_load_module w

  abbrev pub proc_in : World → Option ℕ → ℕ → Option ℕ
  proc_in w none ordinal = none
  proc_in w (some handle) ordinal = dos_query_proc_addr w handle ordinal

  -- `load_doscalls_sym`
  unfoldable pub load_doscalls_sym : Machine World → ℕ → Machine World × Option ℕ
  unfolding open_doscalls
  load_doscalls_sym m ordinal =
      let (w, handle) = open_doscalls m.world m.statics.doscalls_handle in
      (
        record { world = w; statics = record m.statics { doscalls_handle = tried handle } },
        proc_in w handle ordinal,
      )

  abbrev pub or_std : WaitCall → Option ℕ → Target
  or_std call none = std_wait call
  or_std call (some f) = loaded f

  -- The function that `wait`, `waitpid`, `wait3`, `wait4` or `waitid` calls.
  unfoldable pub wait_target : Machine World → WaitCall → Option Target → Machine World × Target
  unfolding load_libcx_sym
  wait_target m call (some f) = (m, f)
  wait_target m call none =
      let (n, sym) = load_libcx_sym m (sym_wait call) in
      let f = or_std call sym in
      (
        record n {
          statics = record n.statics { os2compat_wait = set_wait call f n.statics.os2compat_wait };
        },
        f,
      )

  -- `wait`, `waitpid`, `wait3`, `wait4` and `waitid`
  unfoldable pub wait_for : Machine World → WaitCall → Machine World × Result ℤ
  unfolding wait_target
  wait_for m call =
      let (n, f) = wait_target m call (m.statics.os2compat_wait call) in
      let (w, r) = call_wait n.world f in (record n { world = w }, r)

  -- What a symbol is, where another library is asked once the first has not got it.
  abbrev pub or_else :
      (Machine World → Machine World × Option ℕ)
      → Machine World × Option ℕ
      → Machine World × Option ℕ
  or_else other (m, some f) = (m, some f)
  or_else other (m, none) = other m

  -- The function that `__waitpid` calls.
  unfoldable pub waitpid_raw_target : Machine World → Cached → Machine World × Option ℕ
  unfolding load_libcx_sym load_libc_sym
  waitpid_raw_target m (tried f) = (m, f)
  waitpid_raw_target m not_tried =
      let (n, f) =
        or_else (λ k. load_libc_sym k sym_waitpid_raw) (load_libcx_sym m sym_waitpid_raw) in
      (record n { statics = record n.statics { os2compat_waitpid_raw = tried f } }, f)

  abbrev pub call_or : Errno → Machine World × Option ℕ → Machine World × Result ℤ
  call_or e (m, none) = (m, fail e)
  call_or e (m, some f) = let (w, r) = call_wait m.world (loaded f) in (record m { world = w }, r)

  -- `__waitpid`
  unfoldable pub waitpid_raw : Machine World → Machine World × Result ℤ
  unfolding waitpid_raw_target
  waitpid_raw m = call_or enosys (waitpid_raw_target m m.statics.os2compat_waitpid_raw)

  -- The function that `DosWaitChild` calls.
  unfoldable pub wait_child_target : Machine World → Cached → Machine World × Option ℕ
  unfolding load_libcx_sym load_doscalls_sym
  wait_child_target m (tried f) = (m, f)
  wait_child_target m not_tried =
      let (n, f) = or_else (λ k. load_doscalls_sym k 280) (load_libcx_sym m sym_dos_wait_child) in
      (record n { statics = record n.statics { os2compat_dos_wait_child = tried f } }, f)

  -- `DosWaitChild`; `fail` stands for ERROR_CALL_NOT_IMPLEMENTED.
  unfoldable pub dos_wait_child : Machine World → Machine World × Result ℤ
  unfolding wait_child_target
  dos_wait_child m = call_or enosys (wait_child_target m m.statics.os2compat_dos_wait_child)

  unfoldable pub spawn2_target : Machine World → Cached → Machine World × Option ℕ
  unfolding load_libcx_sym
  spawn2_target m (tried f) = (m, f)
  spawn2_target m not_tried =
      let (n, f) = load_libcx_sym m sym_spawn2 in
      (record n { statics = record n.statics { libcx_spawn2 = tried f } }, f)

  -- `os2compat_load_spawn2`: the function, or `none` where it returns -1.
  unfoldable pub os2compat_load_spawn2 : Machine World → Machine World × Option ℕ
  unfolding spawn2_target
  os2compat_load_spawn2 m = spawn2_target m m.statics.libcx_spawn2
