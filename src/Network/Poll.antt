-- ===== src/Network/Poll.antt =====
-- network/poll.c: poll() on top of select().
pub mod Entries
pub mod Spec
pub mod Refine
pub mod Events
use Prim.Native.Nat.{bit_and, bit_or}
use os2compat.Prelude.{
  ℕ, zero, suc, ◌+◌, ◌*◌, ◌/◌, ◌%◌, Bool, true, false, not, ◌&&◌, ◌||◌, Option, none, some, ◌==◌,
  if◌then◌else◌, is_some, ℤ, pos, negsuc, lt_ℤ, eq_ℤ, ◌+ℤ◌, Array, update,
}
use os2compat.System.{einval, Result, ok, fail, regular, fifo, sock, other_kind, Handles}

-- `struct os2compat_pollfd`
pub record PollFd : Type 0 where
  pub fd : ℤ
  pub events : ℕ
  pub revents : ℕ

abbrev pub pollin : ℕ
pollin = 0x0001

abbrev pub pollpri : ℕ
pollpri = 0x0002

abbrev pub pollout : ℕ
pollout = 0x0004

abbrev pub pollnval : ℕ
pollnval = 0x0020

-- `fd_set`, with `FD_ISSET`, `FD_SET` and `FD_ZERO`
abbrev pub FdSet : Type 0
FdSet = ℤ → Bool

abbrev pub fd_set : ℤ → FdSet → FdSet
fd_set fd s x = eq_ℤ x fd || s x

abbrev pub fd_zero : FdSet
fd_zero x = false

-- `struct timeval`
pub record TimeVal : Type 0 where
  pub tv_sec : ℕ
  pub tv_usec : ℕ

-- The call of select(): the bound, the three sets and the timeout (`none` is NULL) go in, the sets
-- of the ready descriptors come out.
abbrev pub Select : Type 0
Select = ℤ → FdSet → FdSet → FdSet → Option TimeVal → Result (FdSet × FdSet × FdSet)

-- `checkfd`
unfoldable pub checkfd : Handles → ℤ → Bool
checkfd h fd = elim (h.fstat fd) [
  | fail _ ↦ false
  | ok regular ↦ true
  | ok sock ↦ h.is_socket fd
  | ok fifo ↦ is_some (h.pipe_state fd)
  | ok other_kind ↦ false
]

-- The variables of the first loop.
pub record Prep : Type 0 where
  pub fds : Array PollFd
  pub rdset : FdSet
  pub wrset : FdSet
  pub exset : FdSet
  pub non_sockets : ℕ
  pub val : ℤ

-- `if( events & bit ) FD_SET( fd, set )`
abbrev pub add_if : ℕ → ℕ → ℤ → FdSet → FdSet
add_if events bit fd set = if bit_and events bit == 0 then set else fd_set fd set

-- A descriptor that `checkfd` accepts: the new maximum, the bound, the three sets. The flag is
-- false where the function returns EINVAL.
unfoldable pub prepare_open : ℕ → ℤ → ℕ → Prep → Prep × Bool
prepare_open fd_setsize fd events p =
    let q = record p { val = if lt_ℤ p.val fd then fd else p.val } in
    if lt_ℤ fd (pos 0) || not (lt_ℤ fd (pos fd_setsize)) then (q, false) else (
      record q {
        rdset = add_if events pollin fd p.rdset;
        wrset = add_if events pollout fd p.wrset;
        exset = add_if events pollpri fd p.exset;
      },
      true,
    )

-- One round of the first loop.
unfoldable pub prepare_one : Handles → ℕ → ℕ → Prep → Prep × Bool
prepare_one h fd_setsize i p =
    let e = p.fds i in
    let clear = update p.fds i (record e { revents = 0 }) in
    if checkfd h e.fd
    then prepare_open fd_setsize e.fd e.events (record p { fds = clear })
    else if lt_ℤ e.fd (pos 0)
    then (record p { fds = clear }, true)
    else (
      record p {
        fds = update clear i (record e { revents = pollnval });
        non_sockets = p.non_sockets + 1;
      },
      true,
    )

-- The first loop after `k` rounds, or at the round that returned.
unfoldable pub prepare : Handles → ℕ → ℕ → Prep → Prep × Bool
prepare h fd_setsize zero p = (p, true)
prepare h fd_setsize (suc k) p =
    let (q, go) = prepare h fd_setsize k p in
    if go then prepare_one h fd_setsize k q else (q, false)

-- The bits that select() reported for a descriptor.
abbrev pub ready_bits : FdSet → FdSet → FdSet → ℤ → ℕ
ready_bits rd wr ex fd =
    bit_or (bit_or (if rd fd then pollin else 0) (if wr fd then pollout else 0))
      (if ex fd then pollpri else 0)

abbrev pub collect_entry : FdSet → FdSet → FdSet → PollFd → PollFd
collect_entry rd wr ex e =
    if not (lt_ℤ e.fd (pos 0)) && e.revents == 0
    then record e { revents = ready_bits rd wr ex e.fd }
    else e

-- The second loop after `k` rounds: the array and the count.
unfoldable pub collect : FdSet → FdSet → FdSet → ℕ → Array PollFd → Array PollFd × ℕ
collect rd wr ex zero a = (a, 0)
collect rd wr ex (suc k) a =
    let (b, val) = collect rd wr ex k a in
    let e = collect_entry rd wr ex (b k) in (update b k e, if e.revents == 0 then val else val + 1)

-- The timeout that select() is called with: zero when a bad descriptor was seen, NULL when
-- negative.
abbrev pub select_timeout : ℕ → ℤ → Option TimeVal
select_timeout zero (pos ms) = some (record { tv_sec = ms / 1000; tv_usec = ms % 1000 * 1000 })
select_timeout zero (negsuc _) = none
select_timeout (suc _) _ = some (record { tv_sec = 0; tv_usec = 0 })

abbrev pub prep_start : Array PollFd → Prep
prep_start fds = record {
  fds = fds;
  rdset = fd_zero;
  wrset = fd_zero;
  exset = fd_zero;
  non_sockets = 0;
  val = negsuc 0;
}

-- The sets that the second loop reads: select() is called only if a good descriptor was seen.
unfoldable pub run_select : Select → ℤ → Prep → Result (FdSet × FdSet × FdSet)
run_select select timeout p =
    if eq_ℤ p.val (negsuc 0)
    then ok (p.rdset, p.wrset, p.exset)
    else select (p.val +ℤ pos 1) p.rdset p.wrset p.exset (select_timeout p.non_sockets timeout)

-- The end of `os2compat_poll`, on the answer of select().
unfoldable pub finish : Array PollFd → ℕ → Result (FdSet × FdSet × FdSet) → Array PollFd × Result ℕ
finish fds nfds (fail e) = (fds, fail e)
finish fds nfds (ok (rd, wr, ex)) = let (out, val) = collect rd wr ex nfds fds in (out, ok val)

-- `os2compat_poll`; `fd_setsize` is FD_SETSIZE.
unfoldable pub poll : Handles → ℕ → Select → Array PollFd → ℕ → ℤ → Array PollFd × Result ℕ
unfolding finish
poll h fd_setsize select fds nfds timeout =
    let (p, good) = prepare h fd_setsize nfds (prep_start fds) in
    if good then finish p.fds nfds (run_select select timeout p) else (p.fds, fail einval)
