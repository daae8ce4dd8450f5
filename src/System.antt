-- ===== src/System.antt =====
-- What the library calls of the C runtime and of OS/2, and how a call reports an error.
use os2compat.Prelude.{ℕ, Bool, Option, ℤ}

-- The error numbers that the code sets itself; any other is one that a system call left in `errno`.
pub data Errno : Type 0 where
  e2big eacces eagain ebadf ebusy eintr einval eisdir enoent enomem enospc enosys eoverflow : Errno
  other : ℕ → Errno

-- A call that returns -1 and sets `errno` is `fail`.
pub data Result {ℓ} (A : Type ℓ) : Type ℓ where
  ok : A → Result A
  fail : Errno → Result A

abbrev pub Status : Type 0
Status = Result (Unit {0})

-- The kinds that the code asks of `st_mode`.
pub data FileKind : Type 0 where
  regular fifo sock other_kind : FileKind

-- `fstat()`, `getsockopt( SO_TYPE )` and `DosQueryNPHState()` on a descriptor, at one time.
pub record Handles : Type 0 where
  pub fstat : ℤ → Result FileKind
  pub is_socket : ℤ → Bool
  pub pipe_state : ℤ → Option ℕ
