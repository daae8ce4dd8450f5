-- ===== src/Thread/Semaphore/Reach.antt =====
-- thread/semaphore.c: every order in which threads can run the operations of one semaphore.
use os2compat.Prelude.{
  ℕ, suc, ◌+◌, ◌-◌, ◌≡◌, ◌≢◌, ◌<◌, refl, Bool, true, false, ltb, if◌then◌else◌, pos, lt_ℤ, arith,
}
use os2compat.System.{ok}
use os2compat.Thread.Semaphore.{no_error, Timeout, Os, Sem, sem_value_max, post, wait_event, take}
use os2compat.Thread.Semaphore.Laws.{
  EventLaws, Counts, next, post-Counts, take-Counts, waited-Counts, waited-positive,
  released-Counts,
}

-- The semaphore, and whether a thread that holds `hmtxWait` has come back from its wait with
-- success and has not taken its unit yet.
pub record State (os : Os) : Type 0 where
  pub world : os.World
  pub sem : Sem
  pub woken : Bool

module _ (os : Os) where
  open os use {World, dos_release_mutex_sem}

  abbrev pub after_post : State os → State os
  after_post p =
      let (w, s, _) = post os p.world p.sem in record { world = w; sem = s; woken = p.woken }

  abbrev pub after_wait : Timeout → State os → State os
  after_wait t p = record p { world = (wait_event os p.world p.sem t).0; woken = true }

  abbrev pub after_failed_wait : Timeout → State os → State os
  after_failed_wait t p = record p {
    world = dos_release_mutex_sem (wait_event os p.world p.sem t).0 p.sem.hmtx_wait;
  }

  abbrev pub after_take : State os → State os
  after_take p =
      let (w, s) = take os p.world p.sem in
      record { world = dos_release_mutex_sem w p.sem.hmtx_wait; sem = s; woken = false }

  -- One step of some thread. The mutex `hmtxCount` makes the body of sem_post() and the end of
  -- sem_wait() one step each; `hmtxWait` lets one thread at a time be between its wait and its
  -- taking, and posts of other threads can come there.
  pub data Step : State os → State os → Type 0 where
    posts : {p : State os} → (post os p.world p.sem).2 ≡ ok tt → Step p (after_post p)
    wakes :
        {p : State os} (t : Timeout)
        → p.woken ≡ false
        → (wait_event os p.world p.sem t).1 ≡ no_error
        → Step p (after_wait t p)
    gives_up :
        {p : State os} (t : Timeout)
        → p.woken ≡ false
        → (wait_event os p.world p.sem t).1 ≢ no_error
        → Step p (after_failed_wait t p)
    takes : {p : State os} → p.woken ≡ true → Step p (after_take p)

  -- Units given by a step, and units taken.
  abbrev pub given : {p q : State os} → Step p q → ℕ
  given (posts {p} e) = if lt_ℤ p.sem.count (pos sem_value_max) then 1 else 0
  given _ = 0

  abbrev pub taken : {p q : State os} → Step p q → ℕ
  taken (takes h) = 1
  taken _ = 0

  -- The runs from a semaphore of the value `n`, with the units given and taken so far.
  pub data Run (value : ℕ) : ℕ → ℕ → State os → Type 0 where
    starts : {p : State os} → Counts os p.world p.sem value → p.woken ≡ false → Run value 0 0 p
    then_step :
        {g t : ℕ} {p q : State os}
        → Run value g t p
        → (s : Step p q) → Run value (g + given s) (t + taken s) q

  -- What holds between two steps.
  pub record Balanced (value g t : ℕ) (p : State os) : Type 0 where
    pub n : ℕ
    pub counts : Counts os p.world p.sem n
    pub balance : n + t ≡ value + g
    pub unit_for_woken : p.woken ≡ true → 0 < n

  module _ (laws : EventLaws os) (value : ℕ) where
    Step-Balanced :
        {g t : ℕ} {p q : State os}
        → Balanced value g t p
        → (s : Step p q) → Balanced value (g + given s) (t + taken s) q
    Step-Balanced {g} {t} b (posts {p} e) = record {
      n = next b.n;
      counts = (post-Counts os laws p.world p.sem b.n b.counts e).0;
      balance = rw b.counts.value (ground (arith, b.balance));
      unit_for_woken = λ h. ground (arith, b.unit_for_woken h);
    }
    Step-Balanced {g} {t} b (wakes {p} w h e) = record {
      n = b.n;
      counts = waited-Counts os laws p.world p.sem w b.n b.counts;
      balance = omega (arith, b.balance);
      unit_for_woken = λ h.
          let some : ltb 0 b.n ≡ true = waited-positive os laws p.world p.sem w b.n b.counts e in
          ground arith;
    }
    Step-Balanced {g} {t} b (gives_up {p} w h e) = record {
      n = b.n;
      counts =
          released-Counts os laws (wait_event os p.world p.sem w).0 p.sem p.sem.hmtx_wait b.n
            (waited-Counts os laws p.world p.sem w b.n b.counts);
      balance = omega (arith, b.balance);
      unit_for_woken = λ k. cc (h, k);
    }
    Step-Balanced {g} {t} b (takes {p} h) =
        let k = b.n - 1 in
        let one : b.n ≡ suc k = omega (arith, b.unit_for_woken h) in
        let c : Counts os p.world p.sem (suc k) = (rw one at b.counts) in
        let (w, s) = take os p.world p.sem in
        record {
          n = k;
          counts =
              released-Counts os laws w s p.sem.hmtx_wait k
                (take-Counts os laws p.world p.sem k c).0;
          balance = omega (arith, b.balance, b.unit_for_woken h);
          unit_for_woken = λ q. cc q;
        }

    -- In every run, with posts between a thread's waking and its taking: the value is what the
    -- semaphore began with and the units given, less the units taken, so none is lost or taken
    -- twice; the event semaphore is posted exactly while the value is not 0; and a thread that has
    -- woken finds a unit, so that the count never goes below 0.
    pub Run-Balanced : {g t : ℕ} {p : State os} → Run value g t p → Balanced value g t p
    Run-Balanced (starts c h) = record {
      n = value;
      counts = c;
      balance = refl;
      unit_for_woken = λ k. cc (h, k);
    }
    Run-Balanced (then_step r s) = Step-Balanced (Run-Balanced r) s
