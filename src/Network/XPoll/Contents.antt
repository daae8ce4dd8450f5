-- ===== src/Network/XPoll/Contents.antt =====
-- network/xpoll.c: the operations as operations on a finite map from descriptors to entries.
use os2compat.Prelude.{
  ℕ, ◌+◌, ◌≤◌, ◌<◌, ◌≡◌, ◌≢◌, ◌↔◌, ◌⊎◌, refl, sym, ap, ◌∙◌, inl, inr, ◌==◌, ℤ, pos, negsuc, ◌<ℤ◌,
  false, pos_part, neg_part, Array, lt_or_le, Bool-cases, arith,
}
use os2compat.System.{Handles, Errno, ok, fail, enomem}
use os2compat.Network.Poll.{PollFd}
use os2compat.Network.XPoll.{
  XPollSet, check_fd, insert_slot, put_entry, entry, store, add_checked, add,
}
use os2compat.Network.XPoll.Search.{Sorted, Answer, found, absent, binsearch-Answer}
use os2compat.Network.XPoll.Order.{
  IsValid, Place, before, here, behind, place, inserted-lt, inserted-eq, inserted-gt,
}

-- The set holds the entry `e`.
abbrev pub Has : XPollSet → PollFd → Type 0
Has s e = (i : ℕ) × (i < s.nfds) × (s.fds i ≡ e)

-- The set holds an entry for the descriptor.
abbrev pub Watches : XPollSet → ℤ → Type 0
Watches s fd = (i : ℕ) × (i < s.nfds) × ((s.fds i).fd ≡ fd)

-- `t` is `s` without the entry of `fd`.
abbrev pub Without : XPollSet → ℤ → XPollSet → Type 0
Without s fd t = (x : PollFd) → Has t x ↔ (Has s x × (x.fd ≢ fd))

-- `t` is `s` with `e` as the entry of its descriptor.
abbrev pub With : XPollSet → PollFd → XPollSet → Type 0
With s e t = (x : PollFd) → Has t x ↔ ((x ≡ e) ⊎ (Has s x × (x.fd ≢ e.fd)))

pub ne_of_lt : {a b : ℤ} → a <ℤ b → a ≢ b
ne_of_lt h e = omega (arith, ap pos_part e, ap neg_part e)

pub ne_of_gt : {a b : ℤ} → b <ℤ a → a ≢ b
ne_of_gt h e = omega (arith, ap pos_part e, ap neg_part e)

-- No two indices have one descriptor.
pub index_unique :
    (a : Array PollFd) (n i j : ℕ) → Sorted a n → i < n → j < n → (a i).fd ≡ (a j).fd → i ≡ j
index_unique a n i j s hi hj e = elim (lt_or_le i j) [
  | inl h ↦ absurd (ne_of_lt (s i j h hj) e)
  | inr h ↦ elim (lt_or_le j i) [ inl k ↦ absurd (ne_of_gt (s j i k hi) e) | inr k ↦ omega arith ]
]

module _ (s : XPollSet) (e : PollFd) where
  store-absent :
      (p : ℕ)
      → p ≤ s.nfds
      → ((i : ℕ) → i < p → (s.fds i).fd <ℤ e.fd)
      → ((i : ℕ) → p ≤ i → i < s.nfds → e.fd <ℤ (s.fds i).fd)
      → With s e (store s e (negsuc p))
  unfolding store put_entry insert_slot
  store-absent p hp lo hi x = (from, into)
    where
      t : XPollSet
      t = store s e (negsuc p)

      split :
          (j : ℕ) → Place p j → j < s.nfds + 1 → t.fds j ≡ x → (x ≡ e) ⊎ (Has s x × (x.fd ≢ e.fd))
      split j (before h) hj same =
          let old : s.fds j ≡ x = sym (inserted-lt s.fds s.nfds p e j h) ∙ same in
          inr ((j, omega arith, old), rw (← old) (ne_of_lt (lo j h)))
      split j (here h) hj same = inl (sym same ∙ rw h (inserted-eq s.fds s.nfds p e))
      split j (behind k h g) hj same =
          let old : s.fds k ≡ x =
            sym (inserted-gt s.fds s.nfds p e k g (omega arith)) ∙ (rw h at same) in
          inr ((k, omega arith, old), rw (← old) (ne_of_gt (hi k g (omega arith))))

      from : Has t x → (x ≡ e) ⊎ (Has s x × (x.fd ≢ e.fd))
      from (j, hj, same) = split j (place p j) hj same

      into : (x ≡ e) ⊎ (Has s x × (x.fd ≢ e.fd)) → Has t x
      into (inl new) = (p, omega arith, inserted-eq s.fds s.nfds p e ∙ sym new)
      into (inr ((i, h, same), ne)) = elim (lt_or_le i p) [
        | inl k ↦ (i, omega arith, inserted-lt s.fds s.nfds p e i k ∙ same)
        | inr k ↦ (i + 1, omega arith, inserted-gt s.fds s.nfds p e i k h ∙ same)
      ]

  store-found :
      (p : ℕ)
      → Sorted s.fds s.nfds
      → p < s.nfds
      → (s.fds p).fd ≡ e.fd
      → With s e (store s e (pos p))
  unfolding store put_entry
  store-found p sorted hp same x = (from, into)
    where
      elsewhere : (j : ℕ) → j < s.nfds → j ≢ p → (s.fds j).fd ≢ e.fd
      elsewhere j hj ne f = ne (index_unique s.fds s.nfds j p sorted hj hp (f ∙ sym same))

      from : Has (store s e (pos p)) x → (x ≡ e) ⊎ (Has s x × (x.fd ≢ e.fd))
      from (j, hj, f) = elim (Bool-cases (j == p)) [
        | inl q ↦ inl (sym f ∙ rw q)
        | inr q ↦
            let old : s.fds j ≡ x = (rw q at f) in
            inr ((j, hj, old), rw (← old) (elsewhere j hj (ground arith)))
      ]

      into : (x ≡ e) ⊎ (Has s x × (x.fd ≢ e.fd)) → Has (store s e (pos p)) x
      into (inl new) = (p, hp, ground arith)
      into (inr ((i, h, f), ne)) =
          let other : i ≢ p = (λ q. ne (sym (ap (λ (r : PollFd). r.fd) f) ∙ (rw q same))) in
          (i, h, ground arith)

  store-With : {r : ℤ} → Sorted s.fds s.nfds → Answer s.fds s.nfds e.fd r → With s e (store s e r)
  store-With sorted (found p hp same) = store-found p sorted hp same
  store-With sorted (absent p hp lo hi) = store-absent p hp lo hi

module _ (fd_setsize : ℕ) (s : XPollSet) (v : IsValid fd_setsize s) where
  -- Adding an accepted descriptor to a set with room makes its entry the given events with no
  -- result, and leaves the other entries; where the descriptor is refused or the set is full, the
  -- call fails with that error and changes nothing.
  pub add-With :
      (h : Handles) (fd : ℤ) (event : ℕ)
      → let (t, r) = add h fd_setsize s fd event in
        ((e : Errno) → check_fd h fd ≡ fail e → (r ≡ fail e) × (t ≡ s))
        × (check_fd h fd ≡ ok tt → s.nfds ≡ fd_setsize → (r ≡ fail enomem) × (t ≡ s))
        × (check_fd h fd ≡ ok tt → s.nfds ≢ fd_setsize → (r ≡ ok tt) × With s (entry fd event) t)
  unfolding add
  add-With h fd event = (
    λ e refused. rw (refused, add_checked) (refl, refl),
    λ good full. rw (good, add_checked) (ground arith),
    λ good room.
        rw (good, add_checked)
          (let no : (s.nfds == fd_setsize) ≡ false = ground arith in
            rw no
              (refl, store-With s (entry fd event) v.sorted (binsearch-Answer s fd v.sorted).1)),
  )
