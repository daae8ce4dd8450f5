-- ===== src/Process/Spawni/Tests.antt =====
-- process/posix_spawn/spawni.c, process/spawn2.c: the theorems on a table of three handles.
use os2compat.Prelude.{
  ℕ, ltb, ◌≡◌, refl, sym, ap, if◌then◌else◌, is_some, true, false, ◌&&◌, Option, none, some, List,
  [], ◌∷◌, ℤ, pos, negsuc, arith,
}
use os2compat.System.{Errno, ebadf, Result, ok, fail, Status}
use os2compat.Process.Spawn2.Runtime.{Os, FdFlags, Redir, SpawnMode, Program, started}
use os2compat.Process.Spawn2.{not_tried, Machine}
use os2compat.Process.Spawn2.Child.{max_handles, spawn_redirs}
use os2compat.Process.Spawn2.Redirect.{
  source_of, or_option, self_if, inheritable, spawn_redirs-source_of,
}
use os2compat.Process.Spawni.{
  Action, spawn_do_close, spawn_do_dup2, spawn_do_open, SpawnStatics, os2compat_spawni,
}
use os2compat.Process.Spawni.Restored.{Table, set_fd, TableLaws}
use os2compat.Process.Spawni.Handles.{os2compat_spawni-table}

abbrev plain : FdFlags
plain = record { cloexec = false; others = 0 }

abbrev getfd_of : Option FdFlags → Result FdFlags
getfd_of none = fail ebadf
getfd_of (some flags) = ok flags

abbrev setfd_of : Option FdFlags → Table → ℤ → FdFlags → Table × Status
setfd_of none t fd flags = (t, fail ebadf)
setfd_of (some old) t fd flags = (set_fd fd (some flags) t, ok tt)

-- Only handle 9 is left to open.
abbrev open_of : Option FdFlags → Table → Table × Result ℤ
open_of none t = (set_fd (pos 9) (some (record { cloexec = true; others = 0 })) t, ok (pos 9))
open_of (some old) t = (t, fail ebadf)

-- A system whose state is the table of the parent.
abbrev shop : Os
shop = record {
  World = Table;
  dlopen = λ t dll. (t, some 1);
  dlsym = λ t handle sym. some 2;
  dos_load_module = λ t. (t, none);
  dos_query_proc_addr = λ t handle ordinal. none;
  malloc = λ t n. (t, some 4);
  hmalloc = λ t n. (t, some 5);
  free = λ t block. t;
  dos_set_rel_max_fh = λ t. 12;
  libc_fh = λ t fd. is_some (t fd);
  fcntl_getfd = λ t fd. getfd_of (t fd);
  fcntl_setfd = λ t fd flags. setfd_of (t fd) t fd flags;
  open_noinherit = λ t path oflag mode. open_of (t (pos 9)) t;
  close = λ t fd. set_fd fd none t;
  libc_fh_to_path = λ t fd. fail ebadf;
  fn_is_rel = λ path. true;
  make_path = λ dir name. name;
  max_path = 260;
  searchenv2_one_file = λ t path. ok tt;
  call_wait = λ t f. (t, ok (pos 1));
  call_spawn2 = λ t f mode p fds. (t, ok 42);
  call_posix_spawn = λ t f p. (t, started 42);
  errno = λ t. ebadf;
}

getfd_of-some : (r : Option FdFlags) (flags : FdFlags) → getfd_of r ≡ ok flags → r ≡ some flags
getfd_of-some none flags e = ground arith
getfd_of-some (some old) flags e = ground arith

setfd_of-table :
    (r : Option FdFlags) (t : Table) (fd : ℤ) (flags : FdFlags) (x : ℤ)
    → (setfd_of r t fd flags).0 x ≡ (if is_some r then set_fd fd (some flags) t x else t x)
setfd_of-table none t fd flags x = refl
setfd_of-table (some old) t fd flags x = refl

setfd_of-none :
    (r : Option FdFlags) (t : Table) (fd : ℤ) (flags : FdFlags) (e : Errno)
    → (setfd_of r t fd flags).1 ≡ fail e
    → r ≡ none
setfd_of-none none t fd flags e failed = refl
setfd_of-none (some old) t fd flags e failed = ground arith

open_of-fail :
    (r : Option FdFlags) (t : Table) (e : Errno) (x : ℤ)
    → (open_of r t).1 ≡ fail e
    → (open_of r t).0 x ≡ t x
open_of-fail none t e x failed = ground arith
open_of-fail (some old) t e x failed = refl

abbrev opened_fd : Result ℤ → ℤ
opened_fd (fail e) = pos 9
opened_fd (ok fd) = fd

open_of-ok :
    (r : Option FdFlags) (t : Table) (fd : ℤ)
    → t (pos 9) ≡ r
    → (open_of r t).1 ≡ ok fd
    → (t fd ≡ none) × (flags : FdFlags) × ((x : ℤ) → (open_of r t).0 x ≡ set_fd fd (some flags) t x)
open_of-ok none t fd was good =
    let same : fd ≡ pos 9 = sym (ap opened_fd good) in
    rw same (was, record { cloexec = true; others = 0 }, λ x. refl)
open_of-ok (some old) t fd was good = ground arith

abbrev shop_table : TableLaws shop
shop_table = record {
  table = λ t. t;
  fcntl_getfd-table = λ t fd flags e. getfd_of-some (t fd) flags e;
  fcntl_setfd-table = λ t fd flags x. setfd_of-table (t fd) t fd flags x;
  fcntl_setfd-ok = λ t fd flags e failed. setfd_of-none (t fd) t fd flags e failed;
  open-fail = λ t path oflag mode e x failed. open_of-fail (t (pos 9)) t e x failed;
  open-ok = λ t path oflag mode fd good. open_of-ok (t (pos 9)) t fd refl good;
  close-table = λ t fd x. refl;
  dlopen-table = λ t dll. refl;
  malloc-table = λ t n. refl;
  hmalloc-table = λ t n. refl;
  free-table = λ t block. refl;
  call_spawn2-table = λ t f mode p fds. refl;
  call_posix_spawn-table = λ t f p. refl;
}

abbrev three : Table
three (pos n) = if ltb n 3 then some plain else none
three (negsuc n) = none

abbrev program : Program
program = record { name = 97 ∷ []; argv = []; cwd = none; envp = [] }

abbrev mode : SpawnMode
mode = record { noinherit = false; threadsafe = false; base = 0 }

abbrev machine : Machine Table
machine = record {
  world = three;
  statics = record {
    libc_handle = not_tried;
    libcx_handle = not_tried;
    doscalls_handle = not_tried;
    libcx_spawn2 = not_tried;
    os2compat_wait = λ call. none;
    os2compat_waitpid_raw = not_tried;
    os2compat_dos_wait_child = not_tried;
  };
}

abbrev statics : SpawnStatics
statics = record { libc_handle = not_tried; libc_posix_spawn = not_tried; libc_posix_spawnp = none }

abbrev actions : List Action
actions =
    spawn_do_close (pos 0)
    ∷ (spawn_do_open (pos 1) (98 ∷ []) 0 0 ∷ (spawn_do_dup2 (pos 1) (pos 2) ∷ []))

os2compat_spawni-table_example :
    (os2compat_spawni shop true program (some actions) none machine statics).0.world ≡ three
os2compat_spawni-table_example =
    os2compat_spawni-table shop shop_table true program (some actions) none machine statics

spawn_redirs-source_of_example :
    (all : List Redir) × (spawn_redirs shop 2 mode program ((pos 2, pos 0) ∷ []) (three, some 5)
      ≡ (three, ok 42))
    × ((fd : ℕ)
        → source_of (pos fd) all
          ≡ or_option (source_of (pos fd) ((pos 2, pos 0) ∷ [])) (
              self_if
                (ltb fd (max_handles 12) && inheritable shop three ((pos 2, pos 0) ∷ []) fd)
                fd))
spawn_redirs-source_of_example =
    spawn_redirs-source_of shop three ((pos 2, pos 0) ∷ []) 2 mode program 5
