-- ===== src/Network/XPoll/Scanned.antt =====
-- network/xpoll.c: the loop of `os2compat_xpoll_wait`.
use os2compat.Prelude.{
  ℕ, zero, suc, ◌+◌, ◌≤◌, ◌≡◌, ◌≢◌, refl, inl, inr, false, some, [], ◌∷◌, length, length-append,
  get_elem?, get_elem?-push, lt_or_le, ◌==◌, if◌then◌else◌, ltb, ℤ, pos, lt_ℤ, ◌<ℤ◌, Array, update,
  Bool-cases, arith,
}
use os2compat.Network.Poll.{PollFd}
use os2compat.Network.Poll.Entries.{ready}
use os2compat.Network.XPoll.{Scan, scan_one, scan}

-- Every entry has its report cleared.
abbrev pub cleared : PollFd → PollFd
cleared e = record e { revents = 0 }

-- The loop after `k` rounds, from the polled array `a` and the caller's array `b`.
pub record Scanned (maxfds : ℤ) (a b : Array PollFd) (k : ℕ) (c : Scan) : Type 0 where
  pub count : c.j ≡ length (ready a k)
  pub fds : (i : ℕ) → c.fds i ≡ (if ltb i k then cleared (a i) else a i)
  pub outs : (i : ℕ) (e : PollFd) → get_elem? (ready a k) i ≡ some e → pos i <ℤ maxfds → c.out i ≡ e
  pub rest : (i : ℕ) → c.j ≤ i → c.out i ≡ b i

length-ready-le : (a : Array PollFd) (k n : ℕ) → k ≤ n → length (ready a k) ≤ length (ready a n)
length-ready-le a zero zero h = omega arith
length-ready-le a (suc k) zero h = absurd (omega arith)
length-ready-le a k (suc n) h = elim (lt_or_le n k) [
  | inl e ↦ (let same : k ≡ suc n = omega arith in rw same (omega arith))
  | inr le ↦ ground (arith, length-ready-le a k n le, length-append (ready a n) (a n ∷ []))
]

module _ (maxfds : ℤ) (a b : Array PollFd) (k : ℕ) (c : Scan) (r : Scanned maxfds a b k c) where
  -- An entry without a report is passed over.
  skip-Scanned : (a k).revents ≡ 0 → Scanned maxfds a b (suc k) c
  skip-Scanned z = record {
    count = ground (arith, r.count);
    fds = λ i. elim (Bool-cases (i == k)) [
      | inl e ↦ (let same : i ≡ k = ground arith in rw same (ground (arith, r.fds k)))
      | inr e ↦ ground (arith, r.fds i)
    ];
    outs = λ i e g l. r.outs i e (ground arith) l;
    rest = r.rest;
  }

  take-Scanned :
      (a k).revents ≢ 0
      → Scanned maxfds a b (suc k) (record {
        fds = update c.fds k (record (a k) { revents = 0 });
        out = if lt_ℤ (pos c.j) maxfds then update c.out c.j (a k) else c.out;
        j = c.j + 1;
      })
  take-Scanned z = record {
    count = ground (arith, r.count, length-append (ready a k) (a k ∷ []));
    fds = λ i. elim (Bool-cases (i == k)) [
      | inl e ↦ (let same : i ≡ k = ground arith in rw same (ground (arith, r.fds k)))
      | inr e ↦ ground (arith, r.fds i)
    ];
    outs = λ i e g l. ground (arith, get_elem?-push (ready a k) (a k) i, r.outs i e, r.count);
    rest = λ i h. ground (arith, r.rest i);
  }

  scan_one-Scanned : Scanned maxfds a b (suc k) (scan_one maxfds k c)
  unfolding scan_one
  scan_one-Scanned =
      let here : c.fds k ≡ a k = ground (arith, r.fds k) in
      rw here (elim (Bool-cases ((a k).revents == 0)) [
        | inl z ↦ rw z (skip-Scanned (ground arith))
        | inr z ↦ rw z (take-Scanned (ground arith))
      ])

module _ (maxfds : ℤ) (a b : Array PollFd) (n : ℕ) where
  -- Once the loop has seen as many reports as there are, the other entries have none.
  skip-rest :
      (rounds i : ℕ) (c : Scan)
      → i + rounds ≡ n
      → length (ready a n) ≤ c.j
      → Scanned maxfds a b i c
      → Scanned maxfds a b n c
  skip-rest zero i c e h r = let same : i ≡ n = omega arith in rw same at r
  skip-rest (suc rounds) i c e h r = skip-rest rounds (suc i) c (omega arith) h (
      skip-Scanned maxfds a b i c r (
        ground (
          arith,
          r.count,
          length-ready-le a (suc i) n (omega arith),
          length-append (ready a i) (a i ∷ []),
        )))

  -- With the count that poll() gives, the loop ends by its own test and has seen every report.
  pub scan-Scanned :
      (rounds i : ℕ) (c : Scan)
      → i + rounds ≡ n
      → Scanned maxfds a b i c
      → (d : Scan) × (scan maxfds (length (ready a n)) rounds i c ≡ some d) × Scanned maxfds a b n d
  unfolding scan
  scan-Scanned zero i c e r =
      let same : i ≡ n = omega arith in
      let all : Scanned maxfds a b n c = (rw same at r) in
      let done : ltb c.j (length (ready a n)) ≡ false = ground (arith, all.count) in
      (c, rw done refl, all)
  scan-Scanned (suc rounds) i c e r = elim (Bool-cases (ltb c.j (length (ready a n)))) [
    | inl more ↦
        let next : Scanned maxfds a b (suc i) (scan_one maxfds i c) =
          scan_one-Scanned maxfds a b i c r in
        rw more (scan-Scanned rounds (suc i) (scan_one maxfds i c) (omega arith) next)
    | inr done ↦ rw done (c, refl, skip-rest (suc rounds) i c e (ground arith) r)
  ]

pub start-Scanned :
    (maxfds : ℤ) (a b : Array PollFd) → Scanned maxfds a b 0 (record { fds = a; out = b; j = 0 })
start-Scanned maxfds a b = record {
  count = refl;
  fds = λ i. ground arith;
  outs = λ i e g l. cc;
  rest = λ i g. refl;
}
