-- ===== src/Network/XPoll/Search.antt =====
-- `binsearch` of network/xpoll.c on a sorted set.
use os2compat.Prelude.{
  ℕ, zero, suc, ◌+◌, ◌/◌, ◌≤◌, ◌<◌, ◌≡◌, refl, inl, inr, some, ltb, ℤ, pos, negsuc, ◌<ℤ◌, sub_ℕ,
  pos_part, eq_of_parts, eq_ℤ, lt_ℤ, lt_or_le, Bool-cases, ◌==◌, Array, arith,
}
use os2compat.Network.XPoll.{XPollSet, settle, search_loop, search, binsearch}
use os2compat.Network.Poll.{PollFd}

-- The first `n` descriptors stand in strictly increasing order.
abbrev pub Sorted : Array PollFd → ℕ → Type 0
Sorted a n = (i j : ℕ) → i < j → j < n → (a i).fd <ℤ (a j).fd

-- What an answer of `binsearch` says: the descriptor's index, or where it belongs.
pub data Answer (a : Array PollFd) (n : ℕ) (fd : ℤ) : ℤ → Type 0 where
  found : (p : ℕ) → p < n → (a p).fd ≡ fd → Answer a n fd (pos p)
  absent :
      (p : ℕ)
      → p ≤ n
      → ((i : ℕ) → i < p → (a i).fd <ℤ fd)
      → ((i : ℕ) → p ≤ i → i < n → fd <ℤ (a i).fd)
      → Answer a n fd (negsuc p)

module _ (a : Array PollFd) (n : ℕ) (fd : ℤ) where
  -- All descriptors before `left` are smaller than `fd`.
  abbrev Lower : ℕ → Type 0
  Lower left = (i : ℕ) → i < left → (a i).fd <ℤ fd

  -- All descriptors behind `right` are greater.
  abbrev Upper : ℤ → Type 0
  Upper right = (i : ℕ) → right <ℤ pos i → i < n → fd <ℤ (a i).fd

  settle-Answer :
      (left : ℕ) → left < n → Lower left → Upper (pos left) → Answer a n fd (settle a fd left)
  unfolding settle
  settle-Answer left h lo hi = elim (Bool-cases (eq_ℤ (a left).fd fd)) [
    | inl e ↦ rw e (found left h (eq_of_parts _ _ (ground arith)))
    | inr ne ↦ rw ne (elim (Bool-cases (lt_ℤ (a left).fd fd)) [
      | inl l ↦ rw l (
          absent (left + 1) (omega arith)
            (λ i hl. elim (lt_or_le i left) [
              | inl p ↦ lo i p
              | inr p ↦ (let e : i ≡ left = omega arith in rw e (ground arith))
            ])
            (λ i hg hn. hi i (omega arith) hn))
      | inr g ↦ rw g (
          absent left (omega arith) lo (λ i hg hn. elim (lt_or_le left i) [
            | inl p ↦ hi i (omega arith) hn
            | inr p ↦ (let e : i ≡ left = omega arith in rw e (ground arith))
          ]))
    ])
  ]

  module _ (s : Sorted a n) where
    Lower-mid : (m : ℕ) → m < n → (a m).fd <ℤ fd → Lower (m + 1)
    Lower-mid m hm h i hi = elim (lt_or_le i m) [
      | inl p ↦ omega (arith, s i m p hm)
      | inr p ↦ (let e : i ≡ m = omega arith in rw e h)
    ]

    Upper-mid : (m : ℕ) → fd <ℤ (a m).fd → Upper (sub_ℕ m 1)
    Upper-mid m h i hi hn = elim (lt_or_le m i) [
      | inl p ↦ omega (arith, s m i p hn)
      | inr p ↦ (let e : i ≡ m = ground arith in rw e h)
    ]

    -- The loop ends within its fuel, with a right answer.
    search_loop-Answer :
        (fuel left : ℕ) (right : ℤ)
        → 0 < fuel
        → pos_part right < fuel + left
        → left < n
        → pos_part right < n
        → Lower left
        → Upper right
        → (p : ℤ) × (search_loop a fd fuel left right ≡ some p) × Answer a n fd p
    unfolding search_loop
    search_loop-Answer zero left right pf f hl hr lo hi = absurd (omega arith)
    search_loop-Answer (suc fuel) left (negsuc r) pf f hl hr lo hi =
        (settle a fd left, refl, settle-Answer left hl lo (λ i p q. hi i (omega arith) q))
    search_loop-Answer (suc fuel) left (pos r) pf f hl hr lo hi = elim (Bool-cases (ltb left r)) [
      | inr done ↦
          (settle a fd left, rw done, settle-Answer left hl lo (λ i p q. hi i (ground arith) q))
      | inl more ↦ rw more (elim (Bool-cases (eq_ℤ (a ((left + r) / 2)).fd fd)) [
        | inl e ↦
            rw e
              (pos ((left + r) / 2), refl, found _ (ground arith) (eq_of_parts _ _ (ground arith)))
        | inr ne ↦ rw ne (elim (Bool-cases (lt_ℤ (a ((left + r) / 2)).fd fd)) [
          | inl l ↦ rw l (
              search_loop-Answer fuel ((left + r) / 2 + 1) (pos r) (ground arith) (ground arith)
                (ground arith) hr (Lower-mid ((left + r) / 2) (ground arith) (ground arith)) hi)
          | inr g ↦ rw g (
              search_loop-Answer fuel left (sub_ℕ ((left + r) / 2) 1) (ground arith) (ground arith)
                hl (ground arith) lo (Upper-mid ((left + r) / 2) (ground arith)))
        ])
      ])
    ]

search-Answer :
    (s : XPollSet) (fd : ℤ)
    → Sorted s.fds s.nfds
    → (p : ℤ) × (search s fd ≡ some p) × Answer s.fds s.nfds fd p
unfolding search
search-Answer s fd sorted = elim (Bool-cases (s.nfds == 0)) [
  | inl e ↦ rw e (
    negsuc 0,
    refl,
    absent 0 (omega arith) (λ i h. absurd (omega arith)) (λ i h k. absurd (ground arith)),
  )
  | inr ne ↦ rw ne (
      search_loop-Answer s.fds s.nfds fd sorted s.nfds 0 (sub_ℕ s.nfds 1) (ground arith)
        (ground arith) (ground arith) (ground arith) (λ i h. absurd (omega arith))
        (λ i h k. absurd (ground arith)))
]

-- On a sorted set the search ends, and `binsearch` answers the index of the descriptor when it is
-- there, and else the place where it belongs.
pub binsearch-Answer :
    (s : XPollSet) (fd : ℤ)
    → Sorted s.fds s.nfds
    → (search s fd ≡ some (binsearch s fd)) × Answer s.fds s.nfds fd (binsearch s fd)
unfolding binsearch
binsearch-Answer s fd sorted =
    let (p, e, ans) = search-Answer s fd sorted in (rw (e, binsearch), rw (e, binsearch) ans)
