-- ===== src/Thread/Semaphore/Laws.antt =====
-- thread/semaphore.c: the count of a semaphore and the state of its event semaphore.
use os2compat.Prelude.{
  ℕ, zero, suc, ◌+◌, ◌≡◌, ◌≤◌, refl, sym, ap, ◌∙◌, inl, inr, true, false, ltb, if◌then◌else◌, pos,
  lt_ℤ, lt_or_le, arith,
}
use os2compat.System.{eagain, ok, fail}
use os2compat.Thread.Semaphore.{
  Rc, no_error, error_invalid_handle, error_not_enough_memory, error_invalid_parameter,
  error_interrupt, error_too_many_handles, error_sem_busy, error_timeout, error_too_many_posts,
  error_already_posted, other_rc, Timeout, sem_immediate_return, Os, Sem, sem_value_max, increment,
  decrement, is_zero, epilogue, forgive, post_counted, post, wait_event, take, wait_common, trywait,
}

-- The documented behaviour of event semaphores: a post that succeeds, or finds it posted, leaves it
-- posted; a wait succeeds only on a posted one and leaves it posted, and an immediate wait answers
-- at once; a reset unposts it; mutex semaphores do not touch it.
pub record EventLaws (os : Os) : Type 0 where
  pub post_posts :
      (w : os.World) (h : ℕ)
      → forgive (os.dos_post_event_sem w h).1 ≡ no_error
      → os.posted (os.dos_post_event_sem w h).0 h ≡ true
  pub wait_keeps :
      (w : os.World) (h : ℕ) (t : Timeout)
      → os.posted (os.dos_wait_event_sem w h t).0 h ≡ os.posted w h
  pub wait_needs :
      (w : os.World) (h : ℕ) (t : Timeout)
      → (os.dos_wait_event_sem w h t).1 ≡ no_error
      → os.posted w h ≡ true
  pub try_posted :
      (w : os.World) (h : ℕ)
      → (os.dos_wait_event_sem w h sem_immediate_return).1
        ≡ (if os.posted w h then no_error else error_timeout)
  pub reset_resets : (w : os.World) (h : ℕ) → os.posted (os.dos_reset_event_sem w h) h ≡ false
  pub request_keeps :
      (w : os.World) (m h : ℕ) → os.posted (os.dos_request_mutex_sem w m) h ≡ os.posted w h
  pub release_keeps :
      (w : os.World) (m h : ℕ) → os.posted (os.dos_release_mutex_sem w m) h ≡ os.posted w h

-- A semaphore of the value `n`: its event semaphore is posted exactly while the value is not 0.
pub record Counts (os : Os) (w : os.World) (s : Sem) (n : ℕ) : Type 0 where
  pub value : s.count ≡ pos n
  pub bound : n ≤ sem_value_max
  pub event : os.posted w s.hev ≡ ltb 0 n

-- The value after a post.
abbrev pub next : ℕ → ℕ
next n = if ltb n sem_value_max then n + 1 else n

module _ (os : Os) (laws : EventLaws os) where
  open os use {World, posted, dos_request_mutex_sem, dos_release_mutex_sem, dos_post_event_sem}

  epilogue-ok : (rc : Rc) → epilogue rc ≡ ok tt → rc ≡ no_error
  unfolding epilogue
  epilogue-ok no_error e = refl
  epilogue-ok error_invalid_handle e = cc e
  epilogue-ok error_not_enough_memory e = cc e
  epilogue-ok error_invalid_parameter e = cc e
  epilogue-ok error_interrupt e = cc e
  epilogue-ok error_too_many_handles e = cc e
  epilogue-ok error_sem_busy e = cc e
  epilogue-ok error_timeout e = cc e
  epilogue-ok error_too_many_posts e = cc e
  epilogue-ok error_already_posted e = cc e
  epilogue-ok (other_rc n) e = cc e

  suc-add : (n : ℕ) → suc n ≡ n + 1
  suc-add n = omega arith

  positive : (n : ℕ) → ltb 0 (n + 1) ≡ true
  positive n = ground arith

  post_counted-Counts :
      (w : World) (s : Sem) (n : ℕ)
      → Counts os w s n
      → let (v, t, rc) = post_counted os w s in
        rc ≡ no_error → Counts os v t (next n) × (t.hev ≡ s.hev)
  unfolding post_counted
  post_counted-Counts w s n c = elim (lt_or_le sem_value_max n) [
    | inl over ↦ absurd (omega (arith, c.bound))
    | inr le ↦ elim (lt_or_le n sem_value_max) [
      | inl room ↦
          let yes_room : ltb n sem_value_max ≡ true = ground arith in
          let more : lt_ℤ s.count (pos sem_value_max) ≡ true = (rw c.value (ground arith)) in
          rw (more, yes_room)
            (λ good. (
              record {
                value = ap increment c.value ∙ ap pos (suc-add n);
                bound = omega arith;
                event = laws.post_posts w s.hev good ∙ sym (positive n);
              },
              refl,
            ))
      | inr full ↦
          let no_room : ltb n sem_value_max ≡ false = ground arith in
          let most : lt_ℤ s.count (pos sem_value_max) ≡ false = (rw c.value (ground arith)) in
          rw (most, no_room) (λ good. (c, refl))
    ]
  ]

  pub released-Counts :
      (w : World) (s : Sem) (m n : ℕ) → Counts os w s n → Counts os (dos_release_mutex_sem w m) s n
  released-Counts w s m n c = record {
    value = c.value;
    bound = c.bound;
    event = laws.release_keeps w m s.hev ∙ c.event;
  }

  requested-Counts :
      (w : World) (s : Sem) (m n : ℕ) → Counts os w s n → Counts os (dos_request_mutex_sem w m) s n
  requested-Counts w s m n c = record {
    value = c.value;
    bound = c.bound;
    event = laws.request_keeps w m s.hev ∙ c.event;
  }

  -- sem_post() that succeeds on a semaphore of the value `n` makes it `n + 1`, or leaves it where
  -- it is SEM_VALUE_MAX already, and keeps the event semaphore in step.
  pub post-Counts :
      (w : World) (s : Sem) (n : ℕ)
      → Counts os w s n
      → let (v, t, r) = post os w s in r ≡ ok tt → Counts os v t (next n) × (t.hev ≡ s.hev)
  unfolding post
  post-Counts w s n c good =
      let (t, same) =
        post_counted-Counts (dos_request_mutex_sem w s.hmtx_count) s n
          (requested-Counts w s s.hmtx_count n c) (epilogue-ok _ good) in
      (released-Counts _ _ s.hmtx_count (next n) t, same)

  -- The reset of the event semaphore, if the value has become 0.
  abbrev settled : World → Sem → ℕ → World
  settled w s n = if is_zero (pos n) then os.dos_reset_event_sem w s.hev else w

  settled-posted :
      (w : World) (s : Sem) (n : ℕ) → posted w s.hev ≡ true → posted (settled w s n) s.hev ≡ ltb 0 n
  settled-posted w s zero e = laws.reset_resets w s.hev
  settled-posted w s (suc n) e = e ∙ sym (ground arith)

  pub take-Counts :
      (w : World) (s : Sem) (n : ℕ)
      → Counts os w s (suc n)
      → let (v, t) = take os w s in Counts os v t n × (t.hev ≡ s.hev)
  unfolding take
  take-Counts w s n c =
      let v = dos_request_mutex_sem w s.hmtx_count in
      let less : decrement s.count ≡ pos n = ap decrement c.value in
      let full : posted v s.hev ≡ true =
        laws.request_keeps w s.hmtx_count s.hev ∙ (c.event ∙ ground arith) in
      rw less (
        record {
          value = refl;
          bound = omega (arith, c.bound);
          event = laws.release_keeps (settled v s n) s.hmtx_count s.hev ∙ settled-posted v s n full;
        },
        refl,
      )

  pub waited-Counts :
      (w : World) (s : Sem) (t : Timeout) (n : ℕ)
      → Counts os w s n
      → Counts os (wait_event os w s t).0 s n
  unfolding wait_event
  waited-Counts w s t n c = record {
    value = c.value;
    bound = c.bound;
    event =
        laws.wait_keeps (dos_request_mutex_sem w s.hmtx_wait) s.hev t
        ∙ (laws.request_keeps w s.hmtx_wait s.hev ∙ c.event);
  }

  -- A wait that succeeds has found a value that is not 0.
  pub waited-positive :
      (w : World) (s : Sem) (t : Timeout) (n : ℕ)
      → Counts os w s n
      → (wait_event os w s t).1 ≡ no_error
      → ltb 0 n ≡ true
  unfolding wait_event
  waited-positive w s t n c e =
      sym c.event
      ∙ (sym (laws.request_keeps w s.hmtx_wait s.hev)
          ∙ laws.wait_needs (dos_request_mutex_sem w s.hmtx_wait) s.hev t e)

  tried :
      (w : World) (s : Sem) (n : ℕ)
      → Counts os w s n
      → (wait_event os w s sem_immediate_return).1 ≡ (if ltb 0 n then no_error else error_timeout)
  unfolding wait_event
  tried w s n c =
      laws.try_posted (dos_request_mutex_sem w s.hmtx_wait) s.hev
      ∙ ap (λ b. if b then no_error else error_timeout)
          (laws.request_keeps w s.hmtx_wait s.hev ∙ c.event)

  -- With no other thread in between, sem_trywait() fails with EAGAIN on the value 0, which stays,
  -- and succeeds on any other value, which goes down by one.
  pub trywait-Counts :
      (w : World) (s : Sem) (n : ℕ)
      → Counts os w s n
      → let (v, t, r) = trywait os w s in
        (n ≡ 0 → (r ≡ fail eagain) × Counts os v t 0)
        × ((k : ℕ) → n ≡ suc k → (r ≡ ok tt) × Counts os v t k)
  unfolding trywait wait_common epilogue
  trywait-Counts w s n c =
      let u = (wait_event os w s sem_immediate_return).0 in
      let kept : Counts os u s n = waited-Counts w s sem_immediate_return n c in
      (
        λ empty.
            let late : (wait_event os w s sem_immediate_return).1 ≡ error_timeout =
              tried w s n c ∙ rw empty refl in
            rw late (refl, released-Counts u s s.hmtx_wait 0 (rw empty at kept)),
        λ k full.
            let now : (wait_event os w s sem_immediate_return).1 ≡ no_error =
              tried w s n c ∙ ground arith in
            let (taken, _) = take-Counts u s k (rw full at kept) in
            rw now (refl, released-Counts (take os u s).0 (take os u s).1 s.hmtx_wait k taken),
      )
