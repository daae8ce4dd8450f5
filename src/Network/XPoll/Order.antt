-- ===== src/Network/XPoll/Order.antt =====
-- network/xpoll.c: the order of the array and its bounds, kept by every operation.
use os2compat.Prelude.{
  ℕ, zero, suc, ◌+◌, ◌-◌, ◌≤◌, ◌<◌, ◌≡◌, ap, inl, inr, ◌==◌, ℤ, ◌<ℤ◌, Array, update, memmove,
  lt_or_le, Bool-cases, arith,
}
use os2compat.System.{Handles, Status, ok, fail}
use os2compat.Network.Poll.{PollFd}
use os2compat.Network.XPoll.{
  XPollSet, check_fd, insert_slot, put_entry, remove_slot, entry, store, add_checked, add, del_at,
  del, drop_closed, del_closed_loop, del_closed,
}
use os2compat.Network.XPoll.Search.{Sorted, Answer, found, absent, binsearch-Answer}

-- A set as the operations leave it: in order, and no larger than its array.
pub record IsValid (fd_setsize : ℕ) (s : XPollSet) : Type 0 where
  pub sorted : Sorted s.fds s.nfds
  pub fits : s.nfds ≤ fd_setsize

-- The array after `insert_slot` and `put_entry` at `p`.
abbrev pub inserted : Array PollFd → ℕ → ℕ → PollFd → Array PollFd
inserted a n p e = update (memmove (p + 1) p (n - p) a) p e

abbrev pub removed : Array PollFd → ℕ → ℕ → Array PollFd
removed a n p = memmove p (p + 1) (n - p - 1) a

module _ (a : Array PollFd) (n p : ℕ) where
  pub inserted-lt : (e : PollFd) (i : ℕ) → i < p → inserted a n p e i ≡ a i
  inserted-lt e i h = ground arith

  pub inserted-eq : (e : PollFd) → inserted a n p e p ≡ e
  inserted-eq e = ground arith

  pub inserted-gt : (e : PollFd) (i : ℕ) → p ≤ i → i < n → inserted a n p e (i + 1) ≡ a i
  inserted-gt e i h k =
      let same : i + 1 - (p + 1) + p ≡ i = omega arith in ground (arith, ap a same)

  pub removed-lt : (i : ℕ) → i < p → removed a n p i ≡ a i
  removed-lt i h = ground arith

  pub removed-ge : (i : ℕ) → p ≤ i → i + 1 < n → removed a n p i ≡ a (i + 1)
  removed-ge i h k = let same : i - p + (p + 1) ≡ i + 1 = omega arith in ground (arith, ap a same)

-- Where index `i` stands to the slot `p`; `behind` has the index that it had before.
pub data Place (p i : ℕ) : Type 0 where
  before : i < p → Place p i
  here : i ≡ p → Place p i
  behind : (k : ℕ) → i ≡ k + 1 → p ≤ k → Place p i

pub place : (p i : ℕ) → Place p i
place p i = elim (lt_or_le i p) [
  | inl h ↦ before h
  | inr h ↦ elim (lt_or_le p i) [
    | inl k ↦ behind (i - 1) (omega arith) (omega arith)
    | inr k ↦ here (omega arith)
  ]
]

module _ (a : Array PollFd) (n p : ℕ) (s : Sorted a n) where
  -- The order of an array `b` that holds `a` with `e` put in at `p`.
  Sorted-insertion :
      (b : Array PollFd) (e : PollFd)
      → ((i : ℕ) → i < p → b i ≡ a i)
      → b p ≡ e
      → ((i : ℕ) → p ≤ i → i < n → b (i + 1) ≡ a i)
      → p ≤ n
      → ((i : ℕ) → i < p → (a i).fd <ℤ e.fd)
      → ((i : ℕ) → p ≤ i → i < n → e.fd <ℤ (a i).fd)
      → Sorted b (n + 1)
  Sorted-insertion b e lt eq gt hp lo hi i j hij hj = go (place p i) (place p j)
    where
      go : Place p i → Place p j → (b i).fd <ℤ (b j).fd
      go (before h) (before k) = ground (arith, lt i, lt j, s i j)
      go (before h) (here k) = ground (arith, lt i, lo i)
      go (before h) (behind m f k) = rw f (ground (arith, lt i, gt m, s i m))
      go (here h) (behind m f k) = rw (h, f) (ground (arith, gt m, hi m))
      go (behind l g h) (behind m f k) = rw (g, f) (ground (arith, gt l, gt m, s l m))
      go (here h) (before k) = absurd (omega arith)
      go (here h) (here k) = absurd (omega arith)
      go (behind l g h) (before k) = absurd (omega arith)
      go (behind l g h) (here k) = absurd (omega arith)

  Sorted-update : (e : PollFd) → p < n → (a p).fd ≡ e.fd → Sorted (update a p e) n
  Sorted-update e hp same i j hij hj = ground (arith, s i j)

  Sorted-removal :
      (b : Array PollFd)
      → ((i : ℕ) → i < p → b i ≡ a i)
      → ((i : ℕ) → p ≤ i → i + 1 < n → b i ≡ a (i + 1))
      → p < n
      → Sorted b (n - 1)
  Sorted-removal b lt ge hp i j hij hj = elim (lt_or_le i p) [
    | inl h ↦ elim (lt_or_le j p) [
      | inl k ↦ ground (arith, lt i, lt j, s i j)
      | inr k ↦ ground (arith, lt i, ge j, s i (j + 1))
    ]
    | inr h ↦ ground (arith, ge i, ge j, s (i + 1) (j + 1))
  ]

-- What a call of `binsearch` leaves to `add` and `del` on its two answers.
module _ (fd_setsize : ℕ) {s : XPollSet} (v : IsValid fd_setsize s) where
  store-IsValid :
      (e : PollFd) {r : ℤ}
      → s.nfds < fd_setsize
      → Answer s.fds s.nfds e.fd r
      → IsValid fd_setsize (store s e r)
  unfolding store put_entry insert_slot
  store-IsValid e room (found p hp same) = record {
    sorted = Sorted-update s.fds s.nfds p v.sorted e hp same;
    fits = v.fits;
  }
  store-IsValid e room (absent p hp lo hi) = record {
    sorted =
        Sorted-insertion s.fds s.nfds p v.sorted _ e (inserted-lt s.fds s.nfds p e)
          (inserted-eq s.fds s.nfds p e) (inserted-gt s.fds s.nfds p e) hp lo hi;
    fits = omega arith;
  }

  add_checked-IsValid :
      (fd : ℤ) (event : ℕ) (c : Status) → IsValid fd_setsize (add_checked fd_setsize s fd event c).0
  unfolding add_checked
  add_checked-IsValid fd event (fail e) = v
  add_checked-IsValid fd event (ok _) = elim (Bool-cases (s.nfds == fd_setsize)) [
    | inl full ↦ rw full v
    | inr room ↦
        rw room (
          store-IsValid (entry fd event) (ground (arith, v.fits))
            (binsearch-Answer s fd v.sorted).1)
  ]

  -- Adding a descriptor keeps the array in order and within its size, whatever the call answers.
  pub add-IsValid :
      (h : Handles) (fd : ℤ) (event : ℕ) → IsValid fd_setsize (add h fd_setsize s fd event).0
  unfolding add
  add-IsValid h fd event = add_checked-IsValid fd event (check_fd h fd)

  pub remove-IsValid : (p : ℕ) → p < s.nfds → IsValid fd_setsize (remove_slot s p)
  unfolding remove_slot
  remove-IsValid p hp = record {
    sorted =
        Sorted-removal s.fds s.nfds p v.sorted _ (removed-lt s.fds s.nfds p)
          (removed-ge s.fds s.nfds p) hp;
    fits = omega (arith, v.fits);
  }

  del_at-IsValid : (fd : ℤ) {r : ℤ} → Answer s.fds s.nfds fd r → IsValid fd_setsize (del_at s r).0
  unfolding del_at
  del_at-IsValid fd (found p hp same) = remove-IsValid p hp
  del_at-IsValid fd (absent p hp lo hi) = v

  -- Removing a descriptor keeps the order and the bound too.
  pub del-IsValid : (fd : ℤ) → IsValid fd_setsize (del s fd).0
  unfolding del
  del-IsValid fd = del_at-IsValid fd (binsearch-Answer s fd v.sorted).1

  drop_closed-IsValid : (fd : ℤ) (c : Status) → IsValid fd_setsize (drop_closed s fd c)
  unfolding drop_closed
  drop_closed-IsValid fd (ok _) = v
  drop_closed-IsValid fd (fail _) = del-IsValid fd

module _ (h : Handles) (fd_setsize : ℕ) where
  del_closed_loop-IsValid :
      (i : ℕ) {s : XPollSet} → IsValid fd_setsize s → IsValid fd_setsize (del_closed_loop h i s)
  unfolding del_closed_loop
  del_closed_loop-IsValid zero v = v
  del_closed_loop-IsValid (suc i) {s} v =
      del_closed_loop-IsValid i
        (drop_closed-IsValid fd_setsize v (s.fds i).fd (check_fd h (s.fds i).fd))

  pub del_closed-IsValid :
      {s : XPollSet} → IsValid fd_setsize s → IsValid fd_setsize (del_closed h s)
  unfolding del_closed
  del_closed-IsValid {s} v = del_closed_loop-IsValid s.nfds v
