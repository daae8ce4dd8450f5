-- ===== src/Thread/Semaphore/Init.antt =====
-- thread/semaphore.c: `os2compat_sem_init`.
use os2compat.Prelude.{
  ℕ, ◌≡◌, ◌≤◌, ◌<◌, refl, ◌∙◌, inl, inr, Bool, true, false, ltb, lt_or_le, Bool-cases, arith,
}
use os2compat.System.{einval, ok, fail, Status}
use os2compat.Thread.Semaphore.{is_ok, Os, Sem, sem_value_max, destroy, no_space, init_failed, init}
use os2compat.Thread.Semaphore.Laws.{Counts}

-- The documented behaviour of the calls that make a semaphore: a new event semaphore is posted as
-- asked, and making a mutex semaphore leaves it so.
pub record CreateLaws (os : Os) : Type 0 where
  pub event :
      (w : os.World) (b : Bool)
      → let (v, rc, h) = os.dos_create_event_sem w b in is_ok rc ≡ true → os.posted v h ≡ b
  pub mutex : (w : os.World) (h : ℕ) → os.posted (os.dos_create_mutex_sem w).0 h ≡ os.posted w h

module _ (os : Os) where
  open os use {World, posted, dos_create_event_sem, dos_create_mutex_sem}

  no_space-fails : (r : Status) → no_space r ≡ ok tt → ⊥
  no_space-fails (ok _) e = cc e
  no_space-fails (fail _) e = cc e

  init_failed-fails : (w : World) (s : Sem) → (init_failed os w s).2 ≡ ok tt → ⊥
  unfolding init_failed
  init_failed-fails w s e = no_space-fails (destroy os w s).1 e

  init_made :
      CreateLaws os
      → (w : World) (s : Sem) (value : ℕ) → value ≤ sem_value_max
      → ltb sem_value_max value ≡ false
      → let (v, t, r) = init os w s value in r ≡ ok tt → Counts os v t value
  unfolding init
  init_made laws w s value fits small =
      let (v, rc, hev) = dos_create_event_sem w (ltb 0 value) in
      let (u, rc', hmtx_wait) = dos_create_mutex_sem v in
      let (x, rc'', hmtx_count) = dos_create_mutex_sem u in
      elim (Bool-cases (is_ok rc)) [
        | inr bad ↦ rw (small, bad) (λ e. absurd (init_failed-fails v s e))
        | inl good ↦ elim (Bool-cases (is_ok rc')) [
          | inr bad ↦
              rw (small, good, bad) (λ e. absurd (init_failed-fails u (record s { hev = hev }) e))
          | inl good' ↦ elim (Bool-cases (is_ok rc'')) [
            | inr bad ↦
                rw (small, good, good', bad)
                  (λ e.
                    absurd (init_failed-fails x (record s { hev = hev; hmtx_wait = hmtx_wait }) e))
            | inl good'' ↦
                rw (small, good, good', good'')
                  (λ e. record {
                    value = refl;
                    bound = fits;
                    event = laws.mutex u hev ∙ (laws.mutex v hev ∙ laws.event w (ltb 0 value) good);
                  })
          ]
        ]
      ]

  -- sem_init() refuses a value above SEM_VALUE_MAX with EINVAL and touches nothing then. Where it
  -- succeeds the semaphore has the value asked for, and its event semaphore is posted exactly when
  -- that is not 0.
  pub init-Counts :
      CreateLaws os
      → (w : World) (s : Sem) (value : ℕ)
      → (sem_value_max < value → init os w s value ≡ (w, s, fail einval))
        × (let (v, t, r) = init os w s value in r ≡ ok tt → Counts os v t value)
  unfolding init
  init-Counts laws w s value = elim (lt_or_le sem_value_max value) [
    | inl over ↦
        let e : ltb sem_value_max value ≡ true = ground arith in rw e (λ h. refl, λ bad. cc bad)
    | inr fits ↦
        let e : ltb sem_value_max value ≡ false = ground arith in
        rw e (λ h. absurd (omega arith), rw e at (init_made laws w s value fits e))
  ]
