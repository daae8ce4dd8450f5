-- ===== src/Network/XPoll/Wait.antt =====
-- network/xpoll.c: what `os2compat_xpoll_wait` hands to its caller.
use os2compat.Prelude.{
  ℕ, zero, suc, ◌≤◌, ◌≡◌, refl, ◌∙◌, inl, inr, true, false, is_some, sym, ap, Option, some, length,
  get_elem?, ◌&&◌, if◌then◌else◌, ltb, ℤ, pos, lt_ℤ, ◌<ℤ◌, Array, Bool-cases, arith,
}
use mathlib.Core.Option.{some-injective}
use os2compat.System.{Handles, Result, ok, fail}
use os2compat.Network.Poll.{PollFd, FdSet, Select, finish, prepare, prep_start, run_select, poll}
use os2compat.Network.Poll.Entries.{ready, collect-count}
use os2compat.Network.XPoll.Scanned.{cleared, Scanned, scan-Scanned, start-Scanned}
use os2compat.Network.XPoll.{XPollSet, Scan, scan, scanned, deliver, wait}

-- What the caller of `os2compat_xpoll_wait` gets, from what poll() gave.
pub record Delivered (s : XPollSet) (maxfds : ℤ) (out polled : Array PollFd) (n : ℕ) (t : XPollSet)
    (got : Array PollFd) (r : Result ℤ) : Type 0 where
  pub result : r ≡ ok (if ltb 0 n && lt_ℤ maxfds (pos n) then maxfds else pos n)
  pub size : t.nfds ≡ s.nfds
  pub entries : (i : ℕ) → t.fds i ≡ (if ltb i s.nfds then cleared (polled i) else polled i)
  pub first :
      (i : ℕ) (e : PollFd)
      → get_elem? (ready polled s.nfds) i ≡ some e
      → pos i <ℤ maxfds
      → got i ≡ e
  pub others : (i : ℕ) → n ≤ i → got i ≡ out i

-- The answer of poll(): an error, or the number of entries with a report.
abbrev pub Counted : Array PollFd → ℕ → Result ℕ → Type 0
Counted polled k (fail e) = Unit {0}
Counted polled k (ok n) = n ≡ length (ready polled k)

module _ (s : XPollSet) (maxfds : ℤ) (out polled : Array PollFd) where
  scanned-Delivered :
      (n : ℕ)
      → ltb 0 n ≡ true
      → n ≡ length (ready polled s.nfds)
      → (o : Option Scan) → ((d : Scan) × (o ≡ some d) × Scanned maxfds polled out s.nfds d)
      → (t : XPollSet) × (got : Array PollFd) × (r : Result ℤ) × (scanned s maxfds n o
          ≡ some (t, got, r))
        × Delivered s maxfds out polled n t got r
  unfolding scanned
  scanned-Delivered n positive e o (d, ended, r) = rw ended (
    record s { fds = d.fds },
    d.out,
    ok (if lt_ℤ maxfds (pos n) then maxfds else pos n),
    refl,
    record {
      result = rw positive;
      size = refl;
      entries = r.fds;
      first = r.outs;
      others = λ i h. r.rest i (omega (arith, r.count));
    },
  )

  deliver-Delivered :
      (n : ℕ)
      → n ≡ length (ready polled s.nfds)
      → (t : XPollSet) × (got : Array PollFd) × (r : Result ℤ) × (deliver s maxfds out polled (ok n)
          ≡ some (t, got, r))
        × Delivered s maxfds out polled n t got r
  unfolding deliver
  deliver-Delivered n e =
      let c : Scan = record { fds = polled; out = out; j = 0 } in
      let (d, ended, r) =
        scan-Scanned maxfds polled out s.nfds s.nfds 0 c (omega arith)
          (start-Scanned maxfds polled out) in
      let found : scan maxfds n s.nfds 0 c ≡ some d = (rw e ended) in
      elim (Bool-cases (ltb 0 n)) [
        | inl positive ↦
            rw positive (scanned-Delivered n positive e (scan maxfds n s.nfds 0 c) (d, found, r))
        | inr idle ↦
            let at_start : c ≡ d =
              some-injective _ _ (sym (start_ends n idle s.nfds c refl) ∙ found) in
            let q : Scanned maxfds polled out s.nfds c = (rw (← at_start) at r) in
            rw idle (
              record s { fds = polled },
              out,
              ok (pos n),
              refl,
              record {
                result = rw idle;
                size = refl;
                entries = q.fds;
                first = q.outs;
                others = λ i h. refl;
              },
            )
      ]
    where
      start_ends :
          (n : ℕ)
          → ltb 0 n ≡ false
          → (rounds : ℕ) (c : Scan) → c.j ≡ 0
          → scan maxfds n rounds 0 c ≡ some c
      start_ends n idle zero c e = unfold scan in rw (e, idle) refl
      start_ends n idle (suc rounds) c e = unfold scan in rw (e, idle) refl

  -- Whatever poll() has answered, the call ends.
  deliver-ends :
      (r : Result ℕ) → Counted polled s.nfds r → is_some (deliver s maxfds out polled r) ≡ true
  unfolding deliver
  deliver-ends (fail e) h = refl
  deliver-ends (ok n) h = let (t, got, r, ended, _) = deliver-Delivered n h in ap is_some ended

module _ (h : Handles) (fd_setsize : ℕ) (select : Select) where
  finish-Counted :
      (a : Array PollFd) (n : ℕ) (r : Result (FdSet × FdSet × FdSet))
      → Counted (finish a n r).0 n (finish a n r).1
  unfolding finish
  finish-Counted a n (fail e) = tt
  finish-Counted a n (ok (rd, wr, ex)) = collect-count rd wr ex n a

  poll-Counted :
      (a : Array PollFd) (n : ℕ) (timeout : ℤ)
      → let (polled, r) = poll h fd_setsize select a n timeout in Counted polled n r
  unfolding poll
  poll-Counted a n timeout =
      let p = (prepare h fd_setsize n (prep_start a)).0 in
      elim (Bool-cases (prepare h fd_setsize n (prep_start a)).1) [
        | inl good ↦ rw good (finish-Counted p.fds n (run_select select timeout p))
        | inr bad ↦ rw bad tt
      ]

  -- xpoll_wait() ends: with any set, any select() and any arguments, the loop is over by its own
  -- test before its index goes beyond the entries of the set.
  pub wait-ends :
      (s : XPollSet) (out : Array PollFd) (maxfds timeout : ℤ)
      → is_some (wait h fd_setsize select s out maxfds timeout) ≡ true
  unfolding wait
  wait-ends s out maxfds timeout =
      let (polled, r) = poll h fd_setsize select s.fds s.nfds timeout in
      deliver-ends s maxfds out polled r (poll-Counted s.fds s.nfds timeout)
