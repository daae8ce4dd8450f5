-- ===== src/Network/Tests.antt =====
-- poll() and xpoll at concrete sets, and their theorems there.
use os2compat.Prelude.{
  ◌&&◌, ℤ, is_some, ℕ, ◌≡◌, ◌≢◌, ◌↔◌, refl, true, false, Option, some, none, ◌==◌, if◌then◌else◌,
  ltb, pos, negsuc, Array, length, arith,
}
use os2compat.System.{Errno, Handles, sock, ok, fail, Result, ebadf, einval, enomem}
use os2compat.Network.Poll.{
  PollFd, Select, prepare, prepare_one, prepare_open, collect, run_select, pollin, pollout, checkfd,
  poll,
}
use os2compat.Network.Poll.Entries.{ready}
use os2compat.Network.Poll.Spec.{asked, any_bad, in_range, top_fd}
use os2compat.Network.Poll.Refine.{select_answer, reported, poll-reported, poll-fail}
use os2compat.Network.Poll.Events.{poll-nonblocking}
use os2compat.Network.XPoll.{
  XPollSet, settle, search_loop, search, binsearch, check_fd, create, entry, add, del, del_closed,
  query, scan, scanned, scan_one, wait,
}
use os2compat.Network.XPoll.Search.{Answer, binsearch-Answer}
use os2compat.Network.XPoll.Order.{IsValid}
use os2compat.Network.XPoll.Contents.{Has, Watches, Without, With, add-With}
use os2compat.Network.XPoll.Removal.{del-Without, query-Has}
use os2compat.Network.XPoll.Closed.{del_closed-OnlyOpen}
use os2compat.Network.XPoll.Wait.{wait-ends}
use os2compat.Network.XPoll.Reach.{created, added, deleted, Reach-IsValid}

-- Sockets 0 to 9 are open.
abbrev ten : Handles
ten = record {
  fstat =
      λ fd. elim fd [ pos n ↦ if ltb n 10 then ok sock else fail ebadf | negsuc _ ↦ fail ebadf ];
  is_socket = λ fd. true;
  pipe_state = λ fd. none;
}

-- A select() that finds every descriptor ready.
abbrev eager : Select
eager m rs ws es t = ok (rs, ws, es)

abbrev pair_fds : Array PollFd
pair_fds i = if i == 0 then entry (pos 3) pollin else entry (pos 7) pollout

abbrev pair_set : XPollSet
pair_set = record { nfds = 2; fds = pair_fds }

-- The second entry is closed, the third negative.
abbrev mixed : Array PollFd
mixed i =
    if i == 0
    then entry (pos 3) pollin
    else if i == 1
    then entry (pos 70) pollin
    else entry (negsuc 0) pollin

abbrev create_empty : XPollSet
create_empty = record { nfds = 0; fds = λ i. entry (pos 0) 0 }

search_three :
    (binsearch pair_set (pos 3) ≡ pos 0)
    × (binsearch pair_set (pos 5) ≡ negsuc 1)
    × (binsearch pair_set (pos 9) ≡ negsuc 2)
unfolding binsearch search_loop settle
search_three = (refl, refl, refl)

pair_set-IsValid : IsValid 64 pair_set
pair_set-IsValid = record { sorted = λ i j h k. ground arith; fits = omega arith }

binsearch-Answer_example :
    (search pair_set (pos 5) ≡ some (negsuc 1)) × Answer pair_fds 2 (pos 5) (negsuc 1)
unfolding binsearch search_loop settle
binsearch-Answer_example = binsearch-Answer pair_set (pos 5) pair_set-IsValid.sorted

add-With_example :
    let (t, r) = add ten 64 pair_set (pos 5) pollin in
    ((e : Errno) → check_fd ten (pos 5) ≡ fail e → (r ≡ fail e) × (t ≡ pair_set))
    × (check_fd ten (pos 5) ≡ ok tt → ◌≡◌ {A = ℕ} 2 64 → (r ≡ fail enomem) × (t ≡ pair_set))
    × (check_fd ten (pos 5) ≡ ok tt
        → ◌≢◌ {A = ℕ} 2 64
        → (r ≡ ok tt) × With pair_set (entry (pos 5) pollin) t)
add-With_example = add-With 64 pair_set pair_set-IsValid ten (pos 5) pollin

del-Without_example :
    let (t, r) = del pair_set (pos 3) in
    (Watches pair_set (pos 3) → (r ≡ ok tt) × Without pair_set (pos 3) t)
    × (¬ Watches pair_set (pos 3) → (r ≡ fail einval) × (t ≡ pair_set))
del-Without_example = del-Without 64 pair_set pair_set-IsValid (pos 3)

query-Has_example :
    ((e : PollFd) → Has pair_set e → e.fd ≡ pos 7 → query pair_set (pos 7) true ≡ ok (some e))
    × (¬ Watches pair_set (pos 7) → query pair_set (pos 7) true ≡ fail einval)
query-Has_example = query-Has 64 pair_set pair_set-IsValid (pos 7)

-- With no descriptor open, both entries go.
abbrev closed : Handles
closed = record ten { fstat = λ fd. fail ebadf }

del_closed-OnlyOpen_example :
    Has (del_closed closed pair_set) (pair_fds 0)
    ↔ (Has pair_set (pair_fds 0) × (check_fd closed (pos 3) ≡ ok tt))
del_closed-OnlyOpen_example = del_closed-OnlyOpen closed 64 pair_set pair_set-IsValid (pair_fds 0)

Reach-IsValid_example : IsValid 64 (del (add ten 64 (create_empty) (pos 4) pollin).0 (pos 4)).0
unfolding create
Reach-IsValid_example =
    Reach-IsValid 64 eager (deleted (pos 4) (added ten (pos 4) pollin (created refl)))

mixed-in_range : in_range ten mixed 64 3 ≡ true
unfolding in_range checkfd
mixed-in_range = refl

mixed_answer :
    select_answer ten eager mixed 3 (pos 100)
    ≡ ok (asked ten mixed 1 3, asked ten mixed 4 3, asked ten mixed 2 3)
unfolding select_answer top_fd checkfd
mixed_answer = refl

poll-reported_example :
    let (out, r) = poll ten 64 eager mixed 3 (pos 100) in
    ((j : ℕ)
      → out j ≡ (
          if ltb j 3
          then reported ten
              (asked ten mixed 1 3)
              (asked ten mixed 4 3)
              (asked ten mixed 2 3)
              (mixed j)
          else mixed j))
    × (r ≡ ok (length (ready out 3)))
poll-reported_example =
    poll-reported ten 64 eager mixed 3 (pos 100) _ _ _ mixed-in_range mixed_answer

poll-mixed :
    let (out, r) = poll ten 64 eager mixed 3 (pos 100) in
    (r ≡ ok 2) × ((out 0).revents ≡ 1) × ((out 1).revents ≡ 0x20) × ((out 2).revents ≡ 0)
unfolding poll prepare prepare_one prepare_open run_select collect checkfd
poll-mixed = (refl, refl, refl, refl)

-- Descriptor 9 does not fit into a set of 8.
abbrev wide : Array PollFd
wide i = entry (pos 9) pollin

poll-fail_example :
    (in_range ten wide 8 1 ≡ false → (poll ten 8 eager wide 1 (pos 0)).1 ≡ fail einval)
    × ((e : Errno)
        → in_range ten wide 8 1 ≡ true
        → select_answer ten eager wide 1 (pos 0) ≡ fail e
        → (poll ten 8 eager wide 1 (pos 0)).1 ≡ fail e)
poll-fail_example = poll-fail ten 8 eager wide 1 (pos 0)

mixed_bad : any_bad ten mixed 3 ≡ true
unfolding any_bad checkfd
mixed_bad = refl

-- It answers as `eager` does to a timeout of zero, and fails where it would have to wait.
abbrev fails_to_wait : Select
fails_to_wait m rs ws es none = fail einval
fails_to_wait m rs ws es (some t) =
    if t.tv_sec == 0 && t.tv_usec == 0 then ok (rs, ws, es) else fail einval

poll-nonblocking_example :
    poll ten 64 eager mixed 3 (pos 100) ≡ poll ten 64 fails_to_wait mixed 3 (negsuc 0)
poll-nonblocking_example =
    poll-nonblocking ten 64 eager fails_to_wait mixed 3 (λ m rs ws es. refl) mixed_bad (pos 100)
      (negsuc 0)

abbrev mixed_set : XPollSet
mixed_set = record { nfds = 3; fds = mixed }

wait-ends_example : is_some (wait ten 64 eager mixed_set pair_fds (pos 1) (pos 100)) ≡ true
wait-ends_example = wait-ends ten 64 eager mixed_set pair_fds (pos 1) (pos 100)

-- The result, the report of the caller's first entry, and that of the set's second.
abbrev reports : Option (XPollSet × Array PollFd × Result ℤ) → Option (Result ℤ × ℕ × ℕ)
reports none = none
reports (some (t, got, r)) = some (r, (got 0).revents, (t.fds 1).revents)

-- Two entries are ready and the caller has room for one.
wait_mixed :
    reports (wait ten 64 eager mixed_set pair_fds (pos 1) (pos 100)) ≡ some (ok (pos 1), 1, 0)
unfolding wait scan scanned scan_one poll prepare prepare_one prepare_open run_select collect
    checkfd
wait_mixed = refl
