-- ===== src/Network/XPoll/Closed.antt =====
-- network/xpoll.c: `os2compat_xpoll_del_closed` keeps the entries of open descriptors.
use os2compat.Prelude.{
  ℕ, zero, suc, ◌+◌, ◌≤◌, ◌<◌, ◌≡◌, ◌↔◌, refl, sym, ap, ◌∙◌, inl, inr, ℤ, lt_or_le, arith,
}
use os2compat.System.{Handles, Status, ok, fail}
use os2compat.Network.Poll.{PollFd}
use os2compat.Network.XPoll.{
  XPollSet, check_fd, remove_slot, drop_closed, del_closed_loop, del_closed,
}
use os2compat.Network.XPoll.Order.{IsValid, remove-IsValid, removed-ge}
use os2compat.Network.XPoll.Contents.{Has}
use os2compat.Network.XPoll.Removal.{remove-Without, del-at}

-- `check_fd` accepts the descriptor.
abbrev pub IsOpen : Handles → ℤ → Type 0
IsOpen h fd = check_fd h fd ≡ ok tt

module _ (h : Handles) (fd_setsize : ℕ) where
  -- The entries from index `i` on are open.
  abbrev OpenFrom : XPollSet → ℕ → Type 0
  OpenFrom s i = (j : ℕ) → i ≤ j → j < s.nfds → IsOpen h (s.fds j).fd

  abbrev OnlyOpen : XPollSet → XPollSet → Type 0
  OnlyOpen s t = (x : PollFd) → Has t x ↔ (Has s x × IsOpen h x.fd)

  OnlyOpen-all : (s : XPollSet) → OpenFrom s 0 → OnlyOpen s s
  OnlyOpen-all s all x = (
    λ (i, hi, same). (
      (i, hi, same),
      ap (check_fd h) (ap (λ (r : PollFd). r.fd) (sym same)) ∙ all i (omega arith) hi,
    ),
    λ both. both.0,
  )

  record Dropped (s : XPollSet) (i : ℕ) (t : XPollSet) : Type 0 where
    valid : IsValid fd_setsize t
    bound : i ≤ t.nfds
    rest : OpenFrom t i
    same : (x : PollFd) → IsOpen h x.fd → Has t x ↔ Has s x
    less : (x : PollFd) → Has t x → Has s x

  drop_closed-Dropped :
      (i : ℕ) (s : XPollSet) (c : Status)
      → c ≡ check_fd h (s.fds i).fd
      → IsValid fd_setsize s
      → suc i ≤ s.nfds
      → OpenFrom s (suc i)
      → Dropped s i (drop_closed s (s.fds i).fd c)
  unfolding drop_closed remove_slot
  drop_closed-Dropped i s (ok _) e v hi all = record {
    valid = v;
    bound = omega arith;
    rest = λ j hj k. elim (lt_or_le i j) [
      | inl q ↦ all j q k
      | inr q ↦ (let same : j ≡ i = omega arith in rw same (sym e))
    ];
    same = λ x o. (λ p. p, λ p. p);
    less = λ x p. p;
  }
  drop_closed-Dropped i s (fail b) e v hi all = rw (del-at fd_setsize s v i hi) (record {
    valid = remove-IsValid fd_setsize v i hi;
    bound = omega arith;
    rest = λ j hj k.
        rw (removed-ge s.fds s.nfds i j hj (omega arith)) (all (j + 1) (omega arith) (omega arith));
    same = λ x o. (
      λ p. ((remove-Without fd_setsize s v i hi x).0 p).0,
      λ p. (remove-Without fd_setsize s v i hi x).1 (p, λ f. cc (e ∙ ap (check_fd h) (sym f) ∙ o)),
    );
    less = λ x p. ((remove-Without fd_setsize s v i hi x).0 p).0;
  })

  del_closed_loop-OnlyOpen :
      (i : ℕ) (s : XPollSet)
      → IsValid fd_setsize s
      → i ≤ s.nfds
      → OpenFrom s i
      → OnlyOpen s (del_closed_loop h i s)
  unfolding del_closed_loop
  del_closed_loop-OnlyOpen zero s v hi all = OnlyOpen-all s all
  del_closed_loop-OnlyOpen (suc i) s v hi all =
      let t = drop_closed s (s.fds i).fd (check_fd h (s.fds i).fd) in
      let d = drop_closed-Dropped i s (check_fd h (s.fds i).fd) refl v hi all in
      let r = del_closed_loop-OnlyOpen i t d.valid d.bound d.rest in
      λ x. (
        λ p. (let (left, is_open) = (r x).0 p in (d.less x left, is_open)),
        λ (p, is_open). (r x).1 ((d.same x is_open).1 p, is_open),
      )

  -- After `os2compat_xpoll_del_closed` the set holds exactly the entries that it held before and
  -- whose descriptors `check_fd` accepts, none skipped by the shifts that each removal makes.
  pub del_closed-OnlyOpen :
      (s : XPollSet)
      → IsValid fd_setsize s
      → (x : PollFd) → Has (del_closed h s) x ↔ (Has s x × IsOpen h x.fd)
  unfolding del_closed
  del_closed-OnlyOpen s v =
      del_closed_loop-OnlyOpen s.nfds s v (omega arith) (λ j hj k. absurd (omega arith))
