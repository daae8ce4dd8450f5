-- ===== src/Network/Poll/Refine.antt =====
-- network/poll.c: poll() against its description without loops.
use mathlib.Core.Path.{fun_ext}
use os2compat.Prelude.{
  ℕ, zero, suc, ◌*◌, ◌/◌, ◌%◌, ◌<◌, ◌≡◌, refl, ap, ◌∙◌, inl, inr, Bool, true, false, not, length,
  Option, some, none, ◌==◌, if◌then◌else◌, ltb, ℤ, pos, negsuc, lt_ℤ, eq_ℤ, ◌+ℤ◌, Array, Bool-cases,
  arith,
}
use os2compat.System.{Handles, Errno, einval, Result, ok, fail}
use os2compat.Network.Poll.{
  PollFd, FdSet, TimeVal, Select, pollin, pollout, pollpri, pollnval, checkfd, Prep, prepare,
  prep_start, ready_bits, collect_entry, collect, select_timeout, run_select, poll,
}
use os2compat.Network.Poll.Entries.{prepare-fds, marked, ready, collect-count, collect-entry}
use os2compat.Network.Poll.Spec.{
  asked, any_bad, top_fd, in_range, Prepared, prepare-good, prepare-Prepared,
}

-- The timeout for select(): none of it when a bad descriptor is there, NULL when it is negative.
abbrev pub wait_time : Bool → ℤ → Option TimeVal
wait_time true timeout = some (record { tv_sec = 0; tv_usec = 0 })
wait_time false (pos ms) = some (record { tv_sec = ms / 1000; tv_usec = ms % 1000 * 1000 })
wait_time false (negsuc _) = none

-- The answer of select() to the descriptors and events that the entries ask for; with no open
-- descriptor it is not called.
unfoldable pub select_answer :
    Handles → Select → Array PollFd → ℕ → ℤ → Result (FdSet × FdSet × FdSet)
select_answer h select a n timeout =
    if eq_ℤ (top_fd h a n) (negsuc 0)
    then ok (asked h a pollin n, asked h a pollout n, asked h a pollpri n)
    else select (top_fd h a n +ℤ pos 1) (asked h a pollin n) (asked h a pollout n)
        (asked h a pollpri n) (wait_time (any_bad h a n) timeout)

-- What an entry reports: nothing for a negative descriptor, POLLNVAL for one that is not open, and
-- else what select() found.
abbrev pub reported : Handles → FdSet → FdSet → FdSet → PollFd → PollFd
reported h rd wr ex e =
    if lt_ℤ e.fd (pos 0)
    then record e { revents = 0 }
    else if checkfd h e.fd
    then record e { revents = ready_bits rd wr ex e.fd }
    else record e { revents = pollnval }

select_timeout-wait_time :
    (k : ℕ) (bad : Bool) (timeout : ℤ)
    → (k == 0) ≡ not bad
    → select_timeout k timeout ≡ wait_time bad timeout
select_timeout-wait_time zero true timeout e = cc
select_timeout-wait_time zero false (pos ms) e = refl
select_timeout-wait_time zero false (negsuc m) e = refl
select_timeout-wait_time (suc k) true timeout e = refl
select_timeout-wait_time (suc k) false timeout e = absurd (ground arith)

-- The two loops together, on one entry.
collect_entry-marked :
    (h : Handles) (rd wr ex : FdSet) (e : PollFd)
    → (checkfd h e.fd ≡ true → lt_ℤ e.fd (pos 0) ≡ false)
    → collect_entry rd wr ex (marked h e) ≡ reported h rd wr ex e
collect_entry-marked h rd wr ex e nonneg = ground arith

module _ (h : Handles) (fd_setsize : ℕ) (a : Array PollFd) where
  open_nonneg :
      (n j : ℕ)
      → j < n
      → in_range h a fd_setsize n ≡ true
      → checkfd h (a j).fd ≡ true
      → lt_ℤ (a j).fd (pos 0) ≡ false
  unfolding in_range
  open_nonneg zero j hj r c = absurd (omega arith)
  open_nonneg (suc n) j hj r c = elim (Bool-cases (j == n)) [
    | inl e ↦ (let same : j ≡ n = ground arith in rw same (ground arith))
    | inr e ↦ open_nonneg n j (ground arith) (ground arith) c
  ]

module _ (h : Handles) (fd_setsize : ℕ) (select : Select) (a : Array PollFd) (n : ℕ)
    (timeout : ℤ) where
  pub run_select-select_answer :
      (p : Prep)
      → Prepared h a n p
      → run_select select timeout p ≡ select_answer h select a n timeout
  unfolding run_select select_answer
  run_select-select_answer p r = rw (
    fun_ext r.reads,
    fun_ext r.writes,
    fun_ext r.excepts,
    r.top,
    select_timeout-wait_time p.non_sockets (any_bad h a n) timeout r.bad,
  )

  finish-reported :
      (b : Array PollFd) (rd wr ex : FdSet)
      → ((j : ℕ) → b j ≡ (if ltb j n then marked h (a j) else a j))
      → in_range h a fd_setsize n ≡ true
      → (j : ℕ) → (collect rd wr ex n b).0 j ≡ (if ltb j n then reported h rd wr ex (a j) else a j)
  finish-reported b rd wr ex same r j = elim (Bool-cases (ltb j n)) [
    | inl e ↦ ground (
      arith,
      collect-entry rd wr ex n b j,
      same j,
      collect_entry-marked h rd wr ex (a j) (open_nonneg h fd_setsize a n j (ground arith) r),
    )
    | inr e ↦ ground (arith, collect-entry rd wr ex n b j, same j)
  ]

  -- Where every open descriptor fits into an `fd_set` and select(), asked as `select_answer` says,
  -- answers three sets, each of the `n` entries keeps its descriptor and its events and reports
  -- what `reported` says, no other entry changes, and poll() returns the number of entries with a
  -- report.
  pub poll-reported :
      (rd wr ex : FdSet)
      → in_range h a fd_setsize n ≡ true
      → select_answer h select a n timeout ≡ ok (rd, wr, ex)
      → let (out, r) = poll h fd_setsize select a n timeout in
        ((j : ℕ) → out j ≡ (if ltb j n then reported h rd wr ex (a j) else a j))
        × (r ≡ ok (length (ready out n)))
  unfolding poll
  poll-reported rd wr ex r sel =
      let good : (prepare h fd_setsize n (prep_start a)).1 ≡ true =
        prepare-good h fd_setsize a n ∙ r in
      let p = (prepare h fd_setsize n (prep_start a)).0 in
      let answer = run_select-select_answer p (prepare-Prepared h fd_setsize a n good) ∙ sel in
      rw (good, answer)
        (
          finish-reported p.fds rd wr ex (prepare-fds h fd_setsize n (prep_start a) good) r,
          ap ok (collect-count rd wr ex n p.fds),
        )

  -- poll() fails with EINVAL when an open descriptor does not fit into an `fd_set`, and else with
  -- the error of select() when that fails.
  pub poll-fail :
      (in_range h a fd_setsize n ≡ false → (poll h fd_setsize select a n timeout).1 ≡ fail einval)
      × ((e : Errno)
          → in_range h a fd_setsize n ≡ true
          → select_answer h select a n timeout ≡ fail e
          → (poll h fd_setsize select a n timeout).1 ≡ fail e)
  unfolding poll
  poll-fail = (
    λ out. rw (prepare-good h fd_setsize a n ∙ out),
    λ e r sel.
        let good : (prepare h fd_setsize n (prep_start a)).1 ≡ true =
          prepare-good h fd_setsize a n ∙ r in
        let p = (prepare h fd_setsize n (prep_start a)).0 in
        let answer = run_select-select_answer p (prepare-Prepared h fd_setsize a n good) ∙ sel in
        rw (good, answer),
  )
