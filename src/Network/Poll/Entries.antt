-- ===== src/Network/Poll/Entries.antt =====
-- network/poll.c: what poll() writes into the entries, and the number that it returns.
use os2compat.Prelude.{
  ℕ, zero, suc, ◌+◌, ◌≤◌, ◌≡◌, refl, sym, ap, ◌∙◌, inl, inr, ltb, true, List, [], ◌∷◌, ◌++◌, length,
  length-append, ◌==◌, if◌then◌else◌, pos, lt_ℤ, Array, update, Bool-cases, arith,
}
use os2compat.System.{Handles}
use os2compat.Network.Poll.{
  PollFd, FdSet, pollnval, checkfd, Prep, prepare_open, prepare_one, prepare, collect_entry,
  collect,
}

-- The entries among the first `k` that report something, in order.
abbrev pub ready : Array PollFd → ℕ → List PollFd
ready a zero = []
ready a (suc k) = if (a k).revents == 0 then ready a k else ready a k ++ (a k ∷ [])

-- The first loop's mark on an entry: POLLNVAL for a descriptor that is not open, none for a
-- negative one.
abbrev pub marked : Handles → PollFd → PollFd
marked h e =
    if checkfd h e.fd
    then record e { revents = 0 }
    else if lt_ℤ e.fd (pos 0)
    then record e { revents = 0 }
    else record e { revents = pollnval }

ready-update :
    (a : Array PollFd) (k i : ℕ) (e : PollFd) → k ≤ i → ready (update a i e) k ≡ ready a k
ready-update a zero i e h = refl
ready-update a (suc k) i e h = ground (arith, ready-update a k i e)

ready-push :
    (a : Array PollFd) (k : ℕ) (e : PollFd)
    → ready (update a k e) (suc k) ≡ (if e.revents == 0 then ready a k else ready a k ++ (e ∷ []))
ready-push a k e = ground (arith, ready-update a k k e)

-- One round's step of the count.
length-push :
    (xs : List PollFd) (e : PollFd) (n : ℕ)
    → n ≡ length xs
    → (if e.revents == 0 then n else n + 1) ≡ length (if e.revents == 0 then xs else xs ++ (e ∷ []))
length-push xs e n h = elim (Bool-cases (e.revents == 0)) [
  | inl z ↦ rw z h
  | inr z ↦ rw z (omega (arith, length-append xs (e ∷ [])))
]

-- A loop that has treated the entries below `k` treats entry `k`.
update-below :
    (f : PollFd → PollFd) (a : Array PollFd) (k : ℕ) (b : Array PollFd)
    → ((j : ℕ) → b j ≡ (if ltb j k then f (a j) else a j))
    → (j : ℕ) → update b k (f (b k)) j ≡ (if ltb j (suc k) then f (a j) else a j)
update-below f a k b h j = elim (Bool-cases (j == k)) [
  | inl e ↦ (let same : j ≡ k = ground arith in rw same (ground (arith, h k)))
  | inr e ↦ ground (arith, h j)
]

module _ (rd wr ex : FdSet) where
  pub collect-count :
      (k : ℕ) (a : Array PollFd)
      → (collect rd wr ex k a).1 ≡ length (ready (collect rd wr ex k a).0 k)
  unfolding collect
  collect-count zero a = refl
  collect-count (suc k) a =
      let b = (collect rd wr ex k a).0 in
      let e = collect_entry rd wr ex (b k) in
      length-push (ready b k) e (collect rd wr ex k a).1 (collect-count k a)
      ∙ ap length (sym (ready-push b k e))

  pub collect-entry :
      (k : ℕ) (a : Array PollFd) (j : ℕ)
      → (collect rd wr ex k a).0 j ≡ (if ltb j k then collect_entry rd wr ex (a j) else a j)
  unfolding collect
  collect-entry zero a j = ground arith
  collect-entry (suc k) a j =
      update-below (collect_entry rd wr ex) a k (collect rd wr ex k a).0 (collect-entry k a) j

module _ (h : Handles) (fd_setsize : ℕ) where
  pub prepare_one-fds :
      (i : ℕ) (p : Prep) (j : ℕ)
      → (prepare_one h fd_setsize i p).0.fds j ≡ update p.fds i (marked h (p.fds i)) j
  unfolding prepare_one prepare_open
  prepare_one-fds i p j = ground arith

  pub prepare-fds :
      (k : ℕ) (p : Prep)
      → (prepare h fd_setsize k p).1 ≡ true
      → (j : ℕ)
      → (prepare h fd_setsize k p).0.fds j ≡ (if ltb j k then marked h (p.fds j) else p.fds j)
  unfolding prepare
  prepare-fds zero p e j = ground arith
  prepare-fds (suc k) p e j = elim (Bool-cases (prepare h fd_setsize k p).1) [
    | inl good ↦ rw good (
        prepare_one-fds k (prepare h fd_setsize k p).0 j
        ∙ update-below (marked h) p.fds k (prepare h fd_setsize k p).0.fds (prepare-fds k p good) j)
    | inr bad ↦ cc (rw bad at e)
  ]
