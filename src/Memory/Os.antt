-- ===== src/Memory/Os.antt =====
-- What memory/mmap.c calls of OS/2 and of the C runtime: a state of the world and the calls on it.
-- An OS/2 call answers a return code, 0 for success; a runtime call answers a `Result`.
use os2compat.Prelude.{ℕ, Bool, Option, List, ℤ}
use os2compat.System.{Errno, Result, Status}

-- A file or object name, as its bytes.
abbrev pub Name : Type 0
Name = List ℕ

-- The bits of the flag words that OS/2 takes, fPERM and fSHARE among them.
pub data MemFlag : Type 0 where
  perm share commit pag_read pag_write pag_execute obj_any obj_fork obj_location : MemFlag

pub data Whence : Type 0 where
  seek_set seek_cur : Whence

pub record Os : Type 1 where
  pub World : Type 0
  pub getpagesize : ℕ
  -- CCHMAXPATH
  pub cch_max_path : ℕ
  -- `DosQueryMem`: the code, and whether PAG_FREE and PAG_COMMIT are set.
  pub dos_query_mem : World → ℕ → ℕ × Bool × Bool
  -- `DosAllocMemEx`: the requested address (used with OBJ_LOCATION), the length and the flags go
  -- in.
  pub dos_alloc_mem_ex : World → ℕ → ℕ → List MemFlag → World × ℕ × ℕ
  pub dos_set_mem : World → ℕ → ℕ → List MemFlag → World × ℕ
  pub dos_alloc_shared_mem : World → Option Name → ℕ → List MemFlag → World × ℕ × ℕ
  pub dos_get_named_shared_mem : World → Name → List MemFlag → World × ℕ × ℕ
  pub dos_get_shared_mem : World → ℕ → List MemFlag → World × ℕ
  pub dos_alloc_mem : World → ℕ → List MemFlag → World × ℕ × ℕ
  pub dos_alias_mem : World → ℕ → ℕ → List MemFlag → World × ℕ × ℕ
  pub dos_free_mem : World → ℕ → World × ℕ
  pub dos_free_mem_ex : World → ℕ → World × ℕ
  -- The ULONG at an address.
  pub load_ulong : World → ℕ → ℕ
  pub store_ulong : World → ℕ → ℕ → World
  pub malloc : World → World × Status
  -- An `off_t` goes in, of either sign.
  pub lseek : World → ℤ → ℤ → Whence → World × Result ℕ
  -- `errno` as an earlier call left it.
  pub errno : World → Errno
  pub read : World → ℤ → ℕ → ℕ → World × Result ℕ
  pub write : World → ℤ → ℕ → ℕ → World × Result ℕ
  pub filelength : World → ℤ → World × ℤ
  -- `fcntl( fd, F_GETFL ) & ( O_WRONLY | O_RDWR )` is not zero.
  pub may_write : World → ℤ → Bool
  -- `fcntl( fd, F_SETFD, fcntl( fd, F_GETFD ) | FD_CLOEXEC )`
  pub set_cloexec : World → ℤ → World
  pub dup : World → ℤ → World × Result ℤ
  pub close : World → ℤ → World
  -- `__libc_Back_ioFHToPath`
  pub fh_to_path : World → ℤ → ℕ → Result Name
  -- How often the process holds the object at an address, as far as `dos_free_mem` counts.
  pub holds : World → ℕ → ℕ
