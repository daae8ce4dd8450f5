-- ===== src/Network/XPoll.antt =====
-- network/xpoll.c: a set of descriptors to poll, kept in an array sorted by descriptor.
pub mod Search
pub mod Order
pub mod Contents
pub mod Removal
pub mod Closed
pub mod Scanned
pub mod Wait
pub mod Reach
use os2compat.Prelude.{
  ℕ, zero, suc, ◌+◌, ◌-◌, ◌/◌, Bool, true, false, Option, none, some, ◌==◌, if◌then◌else◌, ltb, ℤ,
  pos, negsuc, sub_ℕ, lt_ℤ, eq_ℤ, Array, is_some, update, memmove,
}
use os2compat.System.{
  einval, enomem, Result, ok, fail, Status, regular, fifo, sock, other_kind, Handles,
}
use os2compat.Network.Poll.{PollFd, Select, poll}

-- `struct os2compat_xpollset`; `fds` has FD_SETSIZE elements.
pub record XPollSet : Type 0 where
  pub nfds : ℕ
  pub fds : Array PollFd

-- What `binsearch` answers once its loop has ended with `left`: the index, or -index - 1.
unfoldable pub settle : Array PollFd → ℤ → ℕ → ℤ
settle fds fd left =
    if eq_ℤ (fds left).fd fd
    then pos left
    else if lt_ℤ (fds left).fd fd
    then negsuc (left + 1)
    else negsuc left

-- The loop `while( left < right )`; `right` may become -1. `none` means that the fuel ran out.
unfoldable pub search_loop : Array PollFd → ℤ → ℕ → ℕ → ℤ → Option ℤ
search_loop fds fd zero left right = none
search_loop fds fd (suc fuel) left (negsuc r) = some (settle fds fd left)
search_loop fds fd (suc fuel) left (pos r) =
    let mid = (left + r) / 2 in
    let above = search_loop fds fd fuel (mid + 1) (pos r) in
    let below = search_loop fds fd fuel left (sub_ℕ mid 1) in
    if ltb left r
    then (if eq_ℤ (fds mid).fd fd
        then some (pos mid)
        else if lt_ℤ (fds mid).fd fd
        then above
        else below)
    else some (settle fds fd left)

unfoldable pub search : XPollSet → ℤ → Option ℤ
search s fd =
    if s.nfds == 0 then some (negsuc 0) else search_loop s.fds fd s.nfds 0 (sub_ℕ s.nfds 1)

-- `binsearch`: the loop takes at most `nfds` rounds, so `none` never comes (Search).
unfoldable pub binsearch : XPollSet → ℤ → ℤ
unfolding search
binsearch s fd = elim (search s fd) [ some p ↦ p | none ↦ negsuc 0 ]

-- `check_fd`: a negative descriptor is accepted, as by poll().
unfoldable pub check_fd : Handles → ℤ → Status
check_fd h fd = if lt_ℤ fd (pos 0) then ok tt else elim (h.fstat fd) [
  | fail e ↦ fail e
  | ok regular ↦ ok tt
  | ok sock ↦ if h.is_socket fd then ok tt else fail einval
  | ok fifo ↦ if is_some (h.pipe_state fd) then ok tt else fail einval
  | ok other_kind ↦ fail einval
]

-- `os2compat_xpoll_create`: `calloc` gives zeros, or NULL.
unfoldable pub create : Bool → Option XPollSet
create allocated =
    if allocated
    then some (record { nfds = 0; fds = λ i. record { fd = pos 0; events = 0; revents = 0 } })
    else none

-- The writes at the end of `os2compat_xpoll_add`.
abbrev pub entry : ℤ → ℕ → PollFd
entry fd event = record { fd = fd; events = event; revents = 0 }

-- The empty slot at `p`: the entries from `p` on move up.
unfoldable pub insert_slot : XPollSet → ℕ → XPollSet
insert_slot s p = record { nfds = s.nfds + 1; fds = memmove (p + 1) p (s.nfds - p) s.fds }

unfoldable pub put_entry : XPollSet → ℕ → PollFd → XPollSet
put_entry s p e = record s { fds = update s.fds p e }

-- The end of `os2compat_xpoll_add`, on the answer of `binsearch`.
unfoldable pub store : XPollSet → PollFd → ℤ → XPollSet
store s e (pos p) = put_entry s p e
store s e (negsuc p) = put_entry (insert_slot s p) p e

-- `os2compat_xpoll_add` behind its call of `check_fd`; `fd_setsize` is FD_SETSIZE.
unfoldable pub add_checked : ℕ → XPollSet → ℤ → ℕ → Status → XPollSet × Status
add_checked fd_setsize s fd event (fail e) = (s, fail e)
add_checked fd_setsize s fd event (ok _) =
    if s.nfds == fd_setsize
    then (s, fail enomem)
    else (store s (entry fd event) (binsearch s fd), ok tt)

-- `os2compat_xpoll_add`
unfoldable pub add : Handles → ℕ → XPollSet → ℤ → ℕ → XPollSet × Status
unfolding add_checked
add h fd_setsize s fd event = add_checked fd_setsize s fd event (check_fd h fd)

-- The entries behind `p` move down.
unfoldable pub remove_slot : XPollSet → ℕ → XPollSet
remove_slot s p = record { nfds = s.nfds - 1; fds = memmove p (p + 1) (s.nfds - p - 1) s.fds }

-- `os2compat_xpoll_del` on the answer of `binsearch`.
unfoldable pub del_at : XPollSet → ℤ → XPollSet × Status
del_at s (pos p) = (remove_slot s p, ok tt)
del_at s (negsuc _) = (s, fail einval)

unfoldable pub del : XPollSet → ℤ → XPollSet × Status
unfolding del_at
del s fd = del_at s (binsearch s fd)

-- One round of `os2compat_xpoll_del_closed`, on what `check_fd` says of `xpset->fds[ i ].fd`.
unfoldable pub drop_closed : XPollSet → ℤ → Status → XPollSet
drop_closed s fd (ok _) = s
drop_closed s fd (fail _) = (del s fd).0

-- The loop with `i` going down from `nfds - 1` to 0.
unfoldable pub del_closed_loop : Handles → ℕ → XPollSet → XPollSet
unfolding drop_closed
del_closed_loop h zero s = s
del_closed_loop h (suc i) s =
    del_closed_loop h i (drop_closed s (s.fds i).fd (check_fd h (s.fds i).fd))

-- `os2compat_xpoll_del_closed`
unfoldable pub del_closed : Handles → XPollSet → XPollSet
unfolding del_closed_loop
del_closed h s = del_closed_loop h s.nfds s

-- `os2compat_xpoll_query` on the answer of `binsearch`; `wanted` is false where `pfd` is NULL.
unfoldable pub query_at : XPollSet → Bool → ℤ → Result (Option PollFd)
query_at s wanted (pos p) = ok (if wanted then some (s.fds p) else none)
query_at s wanted (negsuc _) = fail einval

unfoldable pub query : XPollSet → ℤ → Bool → Result (Option PollFd)
unfolding query_at
query s fd wanted = query_at s wanted (binsearch s fd)

-- The loop's variables in `os2compat_xpoll_wait`: the set's array, the caller's array and `j`.
pub record Scan : Type 0 where
  pub fds : Array PollFd
  pub out : Array PollFd
  pub j : ℕ

-- The body of the loop at index `i`.
unfoldable pub scan_one : ℤ → ℕ → Scan → Scan
scan_one maxfds i c =
    let e = c.fds i in
    if e.revents == 0 then c else record {
      fds = update c.fds i (record e { revents = 0 });
      out = if lt_ℤ (pos c.j) maxfds then update c.out c.j e else c.out;
      j = c.j + 1;
    }

-- The loop `for( i = 0, j = 0; j < nfds; i++ )` from index `i` on: its test alone ends it. `none` is
-- that it has not ended after the rounds it is given.
unfoldable pub scan : ℤ → ℕ → ℕ → ℕ → Scan → Option Scan
scan maxfds nfds zero i c = if ltb c.j nfds then none else some c
scan maxfds nfds (suc rounds) i c =
    let rest = scan maxfds nfds rounds (suc i) (scan_one maxfds i c) in
    if ltb c.j nfds then rest else some c

-- What follows the loop.
unfoldable pub scanned :
    XPollSet → ℤ → ℕ → Option Scan → Option (XPollSet × Array PollFd × Result ℤ)
scanned s maxfds n none = none
scanned s maxfds n (some c) =
    some (record s { fds = c.fds }, c.out, ok (if lt_ℤ maxfds (pos n) then maxfds else pos n))

-- `os2compat_xpoll_wait` behind its call of poll(), which gave the array `polled` and the result.
-- The loop is given `s.nfds` rounds; Wait has that it ends.
unfoldable pub deliver :
    XPollSet
    → ℤ
    → Array PollFd
    → Array PollFd
    → Result ℕ
    → Option (XPollSet × Array PollFd × Result ℤ)
unfolding scan scanned
deliver s maxfds out polled (fail e) = some (record s { fds = polled }, out, fail e)
deliver s maxfds out polled (ok n) =
    if ltb 0 n
    then scanned s maxfds n (scan maxfds n s.nfds 0 (record { fds = polled; out = out; j = 0 }))
    else some (record s { fds = polled }, out, ok (pos n))

-- `os2compat_xpoll_wait`; `out` is the caller's array.
unfoldable pub wait :
    Handles
    → ℕ
    → Select
    → XPollSet
    → Array PollFd
    → ℤ
    → ℤ
    → Option (XPollSet × Array PollFd × Result ℤ)
unfolding deliver
wait h fd_setsize select s out maxfds timeout =
    let (polled, r) = poll h fd_setsize select s.fds s.nfds timeout in deliver s maxfds out polled r
