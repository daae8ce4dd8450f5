-- ===== src/Network/XPoll/Removal.antt =====
-- network/xpoll.c: what the removing and the reading operations do to the map of entries.
use os2compat.Prelude.{
  ℕ, ◌+◌, ◌-◌, ◌≤◌, ◌<◌, ◌≡◌, ◌≢◌, refl, sym, ap, ◌∙◌, inl, inr, ◌==◌, ℤ, ◌<ℤ◌, true, some,
  lt_or_le, Bool-cases, arith,
}
use os2compat.System.{ok, fail, einval}
use os2compat.Network.Poll.{PollFd}
use os2compat.Network.XPoll.{XPollSet, remove_slot, del_at, del, query_at, query}
use os2compat.Network.XPoll.Search.{Answer, found, absent, binsearch-Answer}
use os2compat.Network.XPoll.Order.{IsValid, removed-lt, removed-ge}
use os2compat.Network.XPoll.Contents.{Has, Watches, Without, ne_of_lt, ne_of_gt, index_unique}

module _ (fd_setsize : ℕ) (s : XPollSet) (v : IsValid fd_setsize s) where
  pub remove-Without : (p : ℕ) → p < s.nfds → Without s (s.fds p).fd (remove_slot s p)
  unfolding remove_slot
  remove-Without p hp x = (from, into)
    where
      from : Has (remove_slot s p) x → Has s x × (x.fd ≢ (s.fds p).fd)
      from (j, hj, f) = elim (lt_or_le j p) [
        | inl h ↦
            let old : s.fds j ≡ x = sym (removed-lt s.fds s.nfds p j h) ∙ f in
            ((j, omega arith, old), rw (← old) (ne_of_lt (v.sorted j p h hp)))
        | inr h ↦
            let old : s.fds (j + 1) ≡ x = sym (removed-ge s.fds s.nfds p j h (omega arith)) ∙ f in
            (
              (j + 1, omega arith, old),
              rw (← old) (ne_of_gt (v.sorted p (j + 1) (omega arith) (omega arith))),
            )
      ]

      into : Has s x × (x.fd ≢ (s.fds p).fd) → Has (remove_slot s p) x
      into ((j, hj, f), ne) = elim (lt_or_le j p) [
        | inl h ↦ (j, omega arith, removed-lt s.fds s.nfds p j h ∙ f)
        | inr h ↦ elim (Bool-cases (j == p)) [
          | inl q ↦ absurd (ne (ground arith))
          | inr q ↦
              let k : (i : ℕ) × (j ≡ i + 1) × (p ≤ i) = (j - 1, ground arith, ground arith) in
              (
                k.0,
                omega (arith, k.1),
                removed-ge s.fds s.nfds p k.0 k.2 (omega (arith, k.1)) ∙ ap s.fds (sym k.1) ∙ f,
              )
        ]
      ]

  unwatched :
      (fd : ℤ) (p : ℕ)
      → ((i : ℕ) → i < p → (s.fds i).fd <ℤ fd)
      → ((i : ℕ) → p ≤ i → i < s.nfds → fd <ℤ (s.fds i).fd)
      → ¬ Watches s fd
  unwatched fd p lo hi (i, h, same) = elim (lt_or_le i p) [
    | inl k ↦ ne_of_lt (lo i k) same
    | inr k ↦ ne_of_gt (hi i k h) same
  ]

  del_at-Without :
      (fd : ℤ) {r : ℤ}
      → Answer s.fds s.nfds fd r
      → let (t, st) = del_at s r in
        (Watches s fd → (st ≡ ok tt) × Without s fd t)
        × (¬ Watches s fd → (st ≡ fail einval) × (t ≡ s))
  unfolding del_at
  del_at-Without fd (found p hp same) =
      (λ w. (refl, rw (← same) (remove-Without p hp)), λ no_watch. absurd (no_watch (p, hp, same)))
  del_at-Without fd (absent p hp lo hi) =
      (λ w. absurd (unwatched fd p lo hi w), λ no_watch. (refl, refl))

  -- Removing a descriptor drops its entry and no other; where the set has none the call fails with
  -- EINVAL and changes nothing.
  pub del-Without :
      (fd : ℤ)
      → let (t, r) = del s fd in
        (Watches s fd → (r ≡ ok tt) × Without s fd t)
        × (¬ Watches s fd → (r ≡ fail einval) × (t ≡ s))
  unfolding del
  del-Without fd = del_at-Without fd (binsearch-Answer s fd v.sorted).1

  query_at-Has :
      (fd : ℤ) {r : ℤ}
      → Answer s.fds s.nfds fd r
      → ((e : PollFd) → Has s e → e.fd ≡ fd → query_at s true r ≡ ok (some e))
        × (¬ Watches s fd → query_at s true r ≡ fail einval)
  unfolding query_at
  query_at-Has fd (found p hp same) = (
    λ e (i, hi, holds) is.
        let eq : p ≡ i =
          index_unique s.fds s.nfds p i v.sorted hp hi
            (same ∙ sym is ∙ ap (λ (r : PollFd). r.fd) (sym holds)) in
        rw (eq, holds),
    λ no_watch. absurd (no_watch (p, hp, same)),
  )
  query_at-Has fd (absent p hp lo hi) =
      (λ e (i, h, holds) is. absurd (unwatched fd p lo hi (i, h, rw holds is)), λ no_watch. refl)

  -- A query gives the descriptor's entry, or fails with EINVAL where the set has none.
  pub query-Has :
      (fd : ℤ)
      → ((e : PollFd) → Has s e → e.fd ≡ fd → query s fd true ≡ ok (some e))
        × (¬ Watches s fd → query s fd true ≡ fail einval)
  unfolding query
  query-Has fd = query_at-Has fd (binsearch-Answer s fd v.sorted).1

  -- A descriptor of the set is removed at its own index.
  pub del-at : (i : ℕ) → i < s.nfds → (del s (s.fds i).fd).0 ≡ remove_slot s i
  unfolding del
  del-at i hi = go (binsearch-Answer s (s.fds i).fd v.sorted).1
    where
      go : {r : ℤ} → Answer s.fds s.nfds (s.fds i).fd r → (del_at s r).0 ≡ remove_slot s i
      go (found p hp same) = ap (remove_slot s) (index_unique s.fds s.nfds p i v.sorted hp hi same)
      go (absent p hp lo above) = absurd (unwatched (s.fds i).fd p lo above (i, hi, refl))
