-- ===== src/Process/Spawn2/Runtime.antt =====
-- process/spawn2.c, process/posix_spawn/spawni.c: what they call of the C runtime and of OS/2.
use os2compat.Prelude.{ℕ, Bool, Option, List, ℤ}
use os2compat.System.{Errno, Result, Status}

-- The libraries and the symbols that are loaded by name.
pub data Dll : Type 0 where
  libcn0 libc066 libcx0 : Dll

pub data WaitCall : Type 0 where
  wait waitpid wait3 wait4 waitid : WaitCall

pub data SymName : Type 0 where
  sym_wait : WaitCall → SymName
  sym_waitpid_raw sym_dos_wait_child sym_spawn2 sym_posix_spawn sym_posix_spawnp : SymName

-- A function that is called: one of the runtime's own, or one that was loaded.
pub data Target : Type 0 where
  std_wait : WaitCall → Target
  loaded : ℕ → Target

-- The flags of F_GETFD: FD_CLOEXEC, and the others.
pub record FdFlags : Type 0 where
  pub cloexec : Bool
  pub others : ℕ

abbrev pub Str : Type 0
Str = List ℕ

-- A pair of `stdfds` in the mode P_2_XREDIR: the handle, and what it is for the child.
abbrev pub Redir : Type 0
Redir = ℤ × ℤ

-- The argument `stdfds`; in the simple mode it has three handles, and with P_2_XREDIR pairs up to
-- the mark -1: the constructor is that bit of `mode`.
pub data StdFds : Type 0 where
  no_fds : StdFds
  simple_fds : ℤ → ℤ → ℤ → StdFds
  xredir_fds : List Redir → StdFds

-- The other bits of `mode` that are looked at: P_2_NOINHERIT, P_2_THREADSAFE.
pub record SpawnMode : Type 0 where
  pub noinherit : Bool
  pub threadsafe : Bool
  pub base : ℕ

-- The arguments of a spawn.
pub record Program : Type 0 where
  pub name : Str
  pub argv : List Str
  pub cwd : Option Str
  pub envp : List Str

-- What `posix_spawn` answers: 0 with the pid, -1, or an error number.
pub data Answer : Type 0 where
  started : ℕ → Answer
  minus_one : Answer
  error_number : Errno → Answer

-- The calls on a state of the world.
pub record Os : Type 1 where
  pub World : Type 0
  pub dlopen : World → Dll → World × Option ℕ
  pub dlsym : World → ℕ → SymName → Option ℕ
  pub dos_load_module : World → World × Option ℕ
  pub dos_query_proc_addr : World → ℕ → ℕ → Option ℕ
  -- `malloc` and `_hmalloc`, and `free`, which does nothing for NULL.
  pub malloc : World → ℕ → World × Option ℕ
  pub hmalloc : World → ℕ → World × Option ℕ
  pub free : World → ℕ → World
  -- `DosSetRelMaxFH` with no change: the number of handles, 0 on an error.
  pub dos_set_rel_max_fh : World → ℕ
  -- `__libc_FH( fd ) != NULL`
  pub libc_fh : World → ℤ → Bool
  pub fcntl_getfd : World → ℤ → Result FdFlags
  pub fcntl_setfd : World → ℤ → FdFlags → World × Status
  -- `open()` with O_NOINHERIT besides the flags.
  pub open_noinherit : World → Str → ℕ → ℕ → World × Result ℤ
  pub close : World → ℤ → World
  pub libc_fh_to_path : World → ℤ → Result Str
  pub fn_is_rel : Str → Bool
  -- `_makepath` of a directory and a name, cut to `_MAX_PATH`.
  pub make_path : Str → Str → Str
  pub max_path : ℕ
  pub searchenv2_one_file : World → Str → Status
  -- The function that a `Target` is, called.
  pub call_wait : World → Target → World × Result ℤ
  pub call_spawn2 : World → ℕ → SpawnMode → Program → StdFds → World × Result ℕ
  pub call_posix_spawn : World → ℕ → Program → World × Answer
  -- `errno`
  pub errno : World → Errno
