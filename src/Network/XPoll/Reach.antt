-- ===== src/Network/XPoll/Reach.antt =====
-- network/xpoll.c: the sets that a program can reach by the operations.
use os2compat.Prelude.{
  ℕ, zero, suc, ◌≡◌, refl, sym, ap, ◌∙◌, inl, inr, true, Option, none, some, ltb, ℤ, Array,
  Bool-cases, arith,
}
use mathlib.Core.Option.{some-injective}
use os2compat.System.{Handles, Result, ok, fail}
use os2compat.Network.Poll.{
  PollFd, FdSet, Select, prepare_one, prepare, prep_start, Prep, collect, run_select, finish, poll,
}
use os2compat.Network.Poll.Entries.{prepare_one-fds, collect-entry}
use os2compat.Network.XPoll.{
  XPollSet, create, add, del, del_closed, Scan, scan_one, scan, scanned, deliver, wait,
}
use os2compat.Network.XPoll.Order.{IsValid, add-IsValid, del-IsValid, del_closed-IsValid}

-- Two arrays with the same descriptors.
abbrev SameFds : Array PollFd → Array PollFd → Type 0
SameFds a b = (i : ℕ) → (a i).fd ≡ (b i).fd

prepare-SameFds :
    (h : Handles) (fd_setsize k : ℕ) (p : Prep) → SameFds (prepare h fd_setsize k p).0.fds p.fds
unfolding prepare
prepare-SameFds h fd_setsize zero p i = refl
prepare-SameFds h fd_setsize (suc k) p i = elim (Bool-cases (prepare h fd_setsize k p).1) [
  | inl good ↦ rw good (one (prepare h fd_setsize k p).0 ∙ prepare-SameFds h fd_setsize k p i)
  | inr bad ↦ rw bad (prepare-SameFds h fd_setsize k p i)
]
  where
    one : (q : Prep) → ((prepare_one h fd_setsize k q).0.fds i).fd ≡ (q.fds i).fd
    one q = ap (λ (e : PollFd). e.fd) (prepare_one-fds h fd_setsize k q i) ∙ ground arith

collect-SameFds : (rd wr ex : FdSet) (k : ℕ) (a : Array PollFd) → SameFds (collect rd wr ex k a).0 a
collect-SameFds rd wr ex k a i =
    ap (λ (e : PollFd). e.fd) (collect-entry rd wr ex k a i) ∙ ground arith

finish-SameFds :
    (a : Array PollFd) (n : ℕ) (r : Result (FdSet × FdSet × FdSet)) → SameFds (finish a n r).0 a
unfolding finish
finish-SameFds a n (fail e) i = refl
finish-SameFds a n (ok (rd, wr, ex)) i = collect-SameFds rd wr ex n a i

-- poll() never changes a descriptor, on no path.
poll-SameFds :
    (h : Handles) (fd_setsize : ℕ) (select : Select) (a : Array PollFd) (n : ℕ) (timeout : ℤ)
    → SameFds (poll h fd_setsize select a n timeout).0 a
unfolding poll
poll-SameFds h fd_setsize select a n timeout i =
    elim (Bool-cases (prepare h fd_setsize n (prep_start a)).1) [
      | inl good ↦ rw good (
          finish-SameFds (prepare h fd_setsize n (prep_start a)).0.fds n
            (run_select select timeout (prepare h fd_setsize n (prep_start a)).0) i
          ∙ prepare-SameFds h fd_setsize n (prep_start a) i)
      | inr bad ↦ rw bad (prepare-SameFds h fd_setsize n (prep_start a) i)
    ]

scan_one-SameFds : (maxfds : ℤ) (k : ℕ) (c : Scan) → SameFds (scan_one maxfds k c).fds c.fds
unfolding scan_one
scan_one-SameFds maxfds k c i = ground arith

-- Where the loop ends, it has changed no descriptor.
abbrev Keeps : Array PollFd → Option Scan → Type 0
Keeps a none = Unit {0}
Keeps a (some d) = SameFds d.fds a

Keeps-trans : (a b : Array PollFd) (o : Option Scan) → SameFds b a → Keeps b o → Keeps a o
Keeps-trans a b none same h = tt
Keeps-trans a b (some d) same h = λ i. h i ∙ same i

scan-SameFds : (maxfds : ℤ) (n rounds i : ℕ) (c : Scan) → Keeps c.fds (scan maxfds n rounds i c)
unfolding scan
scan-SameFds maxfds n zero i c = elim (Bool-cases (ltb c.j n)) [
  | inl more ↦ rw more tt
  | inr done ↦ rw done (λ k. refl)
]
scan-SameFds maxfds n (suc rounds) i c = elim (Bool-cases (ltb c.j n)) [
  | inl more ↦ rw more (
      Keeps-trans c.fds (scan_one maxfds i c).fds _ (scan_one-SameFds maxfds i c)
        (scan-SameFds maxfds n rounds (suc i) (scan_one maxfds i c)))
  | inr done ↦ rw done (λ k. refl)
]

module _ (s : XPollSet) (maxfds : ℤ) (out polled : Array PollFd) (same : SameFds polled s.fds) where
  -- Where the call ends, the set has the descriptors that it had.
  abbrev Kept : Option (XPollSet × Array PollFd × Result ℤ) → Type 0
  Kept none = Unit {0}
  Kept (some (t, got, r)) = SameFds t.fds s.fds × (t.nfds ≡ s.nfds)

  scanned-Kept : (n : ℕ) (o : Option Scan) → Keeps polled o → Kept (scanned s maxfds n o)
  unfolding scanned
  scanned-Kept n none h = tt
  scanned-Kept n (some c) h = (λ i. h i ∙ same i, refl)

  deliver-Kept : (r : Result ℕ) → Kept (deliver s maxfds out polled r)
  unfolding deliver
  deliver-Kept (fail e) = (same, refl)
  deliver-Kept (ok n) = elim (Bool-cases (ltb 0 n)) [
    | inl some_ready ↦ rw some_ready (
        scanned-Kept n (scan maxfds n s.nfds 0 (record { fds = polled; out = out; j = 0 }))
          (scan-SameFds maxfds n s.nfds 0 (record { fds = polled; out = out; j = 0 })))
    | inr idle ↦ rw idle (same, refl)
  ]

  deliver-SameFds :
      (q : Result ℕ) (t : XPollSet) (got : Array PollFd) (r : Result ℤ)
      → deliver s maxfds out polled q ≡ some (t, got, r)
      → SameFds t.fds s.fds × (t.nfds ≡ s.nfds)
  deliver-SameFds q t got r e =
      let kept : Kept (some (t, got, r)) = (rw e at (deliver-Kept q)) in kept

IsValid-SameFds :
    (fd_setsize : ℕ) (s t : XPollSet)
    → SameFds t.fds s.fds × (t.nfds ≡ s.nfds)
    → IsValid fd_setsize s
    → IsValid fd_setsize t
IsValid-SameFds fd_setsize s t (same, size) v = record {
  sorted = λ i j h k. ground (arith, same i, same j, v.sorted i j);
  fits = omega (arith, v.fits);
}

-- The sets that the operations make, each call with the handles as they are at that time.
pub data Reach (fd_setsize : ℕ) (select : Select) : XPollSet → Type 0 where
  created : {s : XPollSet} → create true ≡ some s → Reach fd_setsize select s
  added :
      {s : XPollSet} (h : Handles) (fd : ℤ) (event : ℕ)
      → Reach fd_setsize select s
      → Reach fd_setsize select (add h fd_setsize s fd event).0
  deleted :
      {s : XPollSet} (fd : ℤ) → Reach fd_setsize select s → Reach fd_setsize select (del s fd).0
  cleaned :
      {s : XPollSet} (h : Handles)
      → Reach fd_setsize select s
      → Reach fd_setsize select (del_closed h s)
  waited :
      {s t : XPollSet} (h : Handles) (out got : Array PollFd) (maxfds timeout : ℤ) (r : Result ℤ)
      → wait h fd_setsize select s out maxfds timeout ≡ some (t, got, r)
      → Reach fd_setsize select s
      → Reach fd_setsize select t

-- Every set that the operations make holds its descriptors in strictly increasing order, and no
-- more of them than its array has room for.
pub Reach-IsValid :
    (fd_setsize : ℕ) (select : Select) {s : XPollSet}
    → Reach fd_setsize select s
    → IsValid fd_setsize s
unfolding create wait
Reach-IsValid fd_setsize select (created {s} e) =
    let empty : s.nfds ≡ 0 = ap (λ (t : XPollSet). t.nfds) (sym (some-injective _ s e)) in
    record { sorted = λ i j h k. absurd (omega arith); fits = omega arith }
Reach-IsValid fd_setsize select (added h fd event r) =
    add-IsValid fd_setsize (Reach-IsValid fd_setsize select r) h fd event
Reach-IsValid fd_setsize select (deleted fd r) =
    del-IsValid fd_setsize (Reach-IsValid fd_setsize select r) fd
Reach-IsValid fd_setsize select (cleaned h r) =
    del_closed-IsValid h fd_setsize (Reach-IsValid fd_setsize select r)
Reach-IsValid fd_setsize select (waited {s} {t} h out got maxfds timeout answer e r) =
    IsValid-SameFds fd_setsize s t
      (deliver-SameFds s maxfds out (poll h fd_setsize select s.fds s.nfds timeout).0
        (poll-SameFds h fd_setsize select s.fds s.nfds timeout)
        (poll h fd_setsize select s.fds s.nfds timeout).1 t got answer e)
      (Reach-IsValid fd_setsize select r)
