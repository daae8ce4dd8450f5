-- ===== src/Network/Poll/Events.antt =====
-- network/poll.c: when poll() waits.
use os2compat.Prelude.{
  ℕ, ◌≡◌, refl, sym, ap, ◌∙◌, inl, inr, true, some, ℤ, pos, negsuc, eq_ℤ, ◌+ℤ◌, Array, Bool-cases,
}
use os2compat.System.{Handles}
use os2compat.Network.Poll.{
  PollFd, FdSet, TimeVal, Select, pollin, pollout, pollpri, prepare, prep_start, finish, poll,
}
use os2compat.Network.Poll.Spec.{asked, any_bad, top_fd, prepare-Prepared}
use os2compat.Network.Poll.Refine.{select_answer, run_select-select_answer}

-- A timeout of zero, with which select() returns at once.
abbrev pub at_once : TimeVal
at_once = record { tv_sec = 0; tv_usec = 0 }

-- Two behaviours of select() that are the same where it does not wait.
abbrev pub SameAtOnce : Select → Select → Type 0
SameAtOnce select select' =
    (m : ℤ) (rs ws es : FdSet)
    → select m rs ws es (some at_once) ≡ select' m rs ws es (some at_once)

module _ (h : Handles) (fd_setsize : ℕ) (select select' : Select) (a : Array PollFd) (n : ℕ) where
  select_answer-at_once :
      SameAtOnce select select'
      → any_bad h a n ≡ true
      → (s t : ℤ) → select_answer h select a n s ≡ select_answer h select' a n t
  unfolding select_answer
  select_answer-at_once same bad s t = elim (Bool-cases (eq_ℤ (top_fd h a n) (negsuc 0))) [
    | inl none_open ↦ rw none_open refl
    | inr some_open ↦
        rw (some_open, bad)
          (same (top_fd h a n +ℤ pos 1) (asked h a pollin n) (asked h a pollout n)
            (asked h a pollpri n))
  ]

  -- Once a descriptor that is not open is among the entries, poll() does not wait: all that it has
  -- of select() is what that answers to a timeout of zero, so with two behaviours of select() that
  -- differ only at other timeouts, and with any two timeouts of its own, poll() gives the same.
  pub poll-nonblocking :
      SameAtOnce select select'
      → any_bad h a n ≡ true
      → (s t : ℤ) → poll h fd_setsize select a n s ≡ poll h fd_setsize select' a n t
  unfolding poll
  poll-nonblocking same bad s t = elim (Bool-cases (prepare h fd_setsize n (prep_start a)).1) [
    | inl good ↦
        let p = (prepare h fd_setsize n (prep_start a)).0 in
        let r = prepare-Prepared h fd_setsize a n good in
        rw good (
          ap (finish p.fds n) (
            run_select-select_answer h fd_setsize select a n s p r
            ∙ select_answer-at_once same bad s t
            ∙ sym (run_select-select_answer h fd_setsize select' a n t p r)))
    | inr out ↦ rw out
  ]
