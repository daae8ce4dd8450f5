-- ===== src/Network/Select.antt =====
-- network/select.c: the kinds of descriptors, and the loop of select() that sorts them.
pub mod Os
pub mod Pipes
pub mod Merge
pub mod Wait
pub mod Phases
pub mod Call
pub mod Laws
mod Tests
pub mod Origin
pub mod Reached
pub mod Within
pub mod Files
pub mod Ready
pub mod Bounded
pub mod Cleanup
pub mod Closed
pub mod Held
pub mod Balance
pub mod Merged
pub mod Sorted
use os2compat.Prelude.{
  ℕ, zero, suc, ◌+◌, ◌==◌, leb, if◌then◌else◌, Bool, true, false, not, ◌&&◌, ◌||◌, Option, none,
  some, ℤ, pos,
}
use os2compat.System.{
  einval, Errno, Result, ok, fail, Status, FileKind, regular, fifo, sock, other_kind, Handles,
}
use os2compat.Network.Poll.{FdSet, fd_set, fd_zero}

-- ST_CONSOLE to ST_SOCKET; ENABLE_CONSOLE is 0, so that no descriptor is a console.
pub data SelectType : Type 0 where
  st_console st_file st_pipe st_socket : SelectType

-- FDSET_READ, FDSET_WRITE and FDSET_EXCEPT
pub data FdSetOp : Type 0 where
  fdset_read fdset_write fdset_except : FdSetOp

abbrev pub type_index : SelectType → ℕ
type_index st_console = 0
type_index st_file = 1
type_index st_pipe = 2
type_index st_socket = 3

abbrev pub op_index : FdSetOp → ℕ
op_index fdset_read = 0
op_index fdset_write = 1
op_index fdset_except = 2

abbrev pub same_type : SelectType → SelectType → Bool
same_type t u = type_index t == type_index u

abbrev pub same_op : FdSetOp → FdSetOp → Bool
same_op o p = op_index o == op_index p

-- `SELECTPARM`
pub record SelectParm : Type 0 where
  pub nmaxfds : ℕ
  pub nfds : FdSetOp → ℕ
  pub fdset : FdSetOp → FdSet

-- The array `parms`.
abbrev pub Parms : Type 0
Parms = SelectType → SelectParm

abbrev pub set_parm : SelectType → SelectParm → Parms → Parms
set_parm t p parms u = if same_type u t then p else parms u

abbrev pub empty_parms : Parms
empty_parms t = record { nmaxfds = 0; nfds = λ o. 0; fdset = λ o. fd_zero }

-- The sets that the caller gives, `none` for NULL.
abbrev pub Asked : Type 0
Asked = FdSetOp → Option FdSet

-- `set && FD_ISSET( fd, set )`
abbrev pub is_asked : Asked → FdSetOp → ℤ → Bool
is_asked asked op fd = elim (asked op) [ none ↦ false | some s ↦ s fd ]

-- A named pipe whose end serves the operation; `np_end_server` tells whether NP_END_SERVER is set.
unfoldable pub pipe_serves : (ℕ → Bool) → Option ℕ → FdSetOp → Bool
pipe_serves np_end_server none op = false
pipe_serves np_end_server (some state) fdset_read = np_end_server state
pipe_serves np_end_server (some state) fdset_write = not (np_end_server state)
pipe_serves np_end_server (some state) fdset_except = false

-- The type that `setfd` finds, `none` for EINVAL.
unfoldable pub type_of_kind : (ℕ → Bool) → Handles → ℤ → FdSetOp → FileKind → Option SelectType
unfolding pipe_serves
type_of_kind server h fd op regular = some st_file
type_of_kind server h fd op fifo =
    if pipe_serves server (h.pipe_state fd) op then some st_pipe else none
type_of_kind server h fd op sock = if h.is_socket fd then some st_socket else none
type_of_kind server h fd op other_kind = none

-- `fd` as one of `parm`.
unfoldable pub add_fd : ℕ → FdSetOp → SelectParm → SelectParm
add_fd fd op p = record {
  nmaxfds = if leb p.nmaxfds fd then fd + 1 else p.nmaxfds;
  nfds = λ o. if same_op o op then (if leb (p.nfds op) fd then fd + 1 else p.nfds op) else p.nfds o;
  fdset = λ o. if same_op o op then fd_set (pos fd) (p.fdset op) else p.fdset o;
}

-- Exceptions are kept for files and sockets only.
unfoldable pub accepts : SelectType → FdSetOp → Bool
accepts t op = same_type t st_file || same_type t st_socket || not (same_op op fdset_except)

-- The end of `setfd`, with the type.
unfoldable pub put_fd : ℕ → FdSetOp → Parms → Option SelectType → Parms × Status
unfolding add_fd accepts
put_fd fd op parms none = (parms, fail einval)
put_fd fd op parms (some t) =
    (if accepts t op then set_parm t (add_fd fd op (parms t)) parms else parms, ok tt)

-- `setfd`
unfoldable pub setfd : (ℕ → Bool) → Handles → ℕ → Parms → FdSetOp → Parms × Status
unfolding put_fd type_of_kind
setfd server h fd parms op = elim (h.fstat (pos fd)) [
  | fail e ↦ (parms, fail e)
  | ok kind ↦ put_fd fd op parms (type_of_kind server h (pos fd) op kind)
]

-- `setfd` where the caller asks.
unfoldable pub setfd_if :
    (ℕ → Bool) → Handles → Asked → ℕ → FdSetOp → Parms × Status → Parms × Status
unfolding setfd
setfd_if server h asked fd op (parms, fail e) = (parms, fail e)
setfd_if server h asked fd op (parms, ok _) =
    if is_asked asked op (pos fd) then setfd server h fd parms op else (parms, ok tt)

-- The body of the loop on one descriptor.
unfoldable pub categorize_one : (ℕ → Bool) → Handles → Asked → ℕ → Parms × Status → Parms × Status
unfolding setfd_if
categorize_one server h asked fd r =
    setfd_if server h asked fd fdset_except
      (setfd_if server h asked fd fdset_write (setfd_if server h asked fd fdset_read r))

-- The loop after `k` rounds, or at the round that returned.
unfoldable pub categorize : (ℕ → Bool) → Handles → Asked → ℕ → Parms × Status
unfolding categorize_one
categorize server h asked zero = (empty_parms, ok tt)
categorize server h asked (suc k) = categorize_one server h asked k (categorize server h asked k)
