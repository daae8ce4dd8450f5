-- ===== src/Thread/Semaphore.antt =====
-- thread/semaphore.c and thread/semaphore.h: the operations of a semaphore.
pub mod Laws
pub mod Reach
pub mod Init
use os2compat.Prelude.{
  ℕ, zero, suc, Bool, true, false, ltb, if◌then◌else◌, Option, none, some, ℤ, pos, negsuc, lt_ℤ,
}
use os2compat.System.{Errno, eagain, ebusy, eintr, einval, enomem, enospc, Result, ok, fail, Status}

-- The return codes of OS/2 that the code names, and the others.
pub data Rc : Type 0 where
  no_error error_invalid_handle error_not_enough_memory error_invalid_parameter error_interrupt : Rc
  error_too_many_handles error_sem_busy error_timeout error_too_many_posts error_already_posted : Rc
  other_rc : ℕ → Rc

abbrev pub is_ok : Rc → Bool
is_ok no_error = true
is_ok _ = false

pub data Timeout : Type 0 where
  sem_indefinite_wait sem_immediate_return : Timeout

-- What the code calls of OS/2. `posted` tells of an event semaphore whether it is posted.
pub record Os : Type 1 where
  pub World : Type 0
  pub dos_create_event_sem : World → Bool → World × Rc × ℕ
  pub dos_create_mutex_sem : World → World × Rc × ℕ
  pub dos_close_event_sem : World → ℕ → World × Rc
  pub dos_close_mutex_sem : World → ℕ → World × Rc
  pub dos_request_mutex_sem : World → ℕ → World
  pub dos_release_mutex_sem : World → ℕ → World
  pub dos_post_event_sem : World → ℕ → World × Rc
  pub dos_wait_event_sem : World → ℕ → Timeout → World × Rc
  pub dos_reset_event_sem : World → ℕ → World
  pub posted : World → ℕ → Bool

-- `os2compat_sem_t`
pub record Sem : Type 0 where
  pub hev : ℕ
  pub hmtx_wait : ℕ
  pub hmtx_count : ℕ
  pub count : ℤ

-- SEM_VALUE_MAX
abbrev pub sem_value_max : ℕ
sem_value_max = 32767

-- `count++` and `count--`
abbrev pub increment : ℤ → ℤ
increment (pos n) = pos (suc n)
increment (negsuc zero) = pos zero
increment (negsuc (suc n)) = negsuc n

abbrev pub decrement : ℤ → ℤ
decrement (pos zero) = negsuc zero
decrement (pos (suc n)) = pos n
decrement (negsuc n) = negsuc (suc n)

abbrev pub is_zero : ℤ → Bool
is_zero (pos zero) = true
is_zero _ = false

-- `rc2errno`; `none` is its 0.
unfoldable pub rc2errno : Rc → Option Errno
rc2errno no_error = none
rc2errno error_invalid_handle = some einval
rc2errno error_not_enough_memory = some enomem
rc2errno error_invalid_parameter = some einval
rc2errno error_interrupt = some eintr
rc2errno error_too_many_handles = some enospc
rc2errno error_sem_busy = some ebusy
rc2errno error_timeout = some eagain
rc2errno _ = some einval

-- EPILOGUE
unfoldable pub epilogue : Rc → Status
unfolding rc2errno
epilogue rc = elim (rc2errno rc) [ none ↦ ok tt | some e ↦ fail e ]

-- The two codes of a post that count as none.
unfoldable pub forgive : Rc → Rc
forgive error_too_many_posts = no_error
forgive error_already_posted = no_error
forgive rc = rc

-- The `errno` after ENOSPC and then `os2compat_sem_destroy`.
abbrev pub no_space : Status → Status
no_space (ok _) = fail enospc
no_space (fail e) = fail e

module _ (os : Os) where
  open os use {
    World, dos_create_event_sem, dos_create_mutex_sem, dos_close_event_sem, dos_close_mutex_sem,
    dos_request_mutex_sem, dos_release_mutex_sem, dos_post_event_sem, dos_wait_event_sem,
    dos_reset_event_sem,
  }

  -- `os2compat_sem_destroy`: the first close that fails is the last.
  unfoldable pub destroy : World → Sem → World × Status
  unfolding epilogue
  destroy w s =
      let (v, rc) = dos_close_event_sem w s.hev in
      if is_ok rc
      then (let (u, rc') = dos_close_mutex_sem v s.hmtx_wait in
          if is_ok rc'
          then (let (x, rc'') = dos_close_mutex_sem u s.hmtx_count in (x, epilogue rc''))
          else (u, epilogue rc'))
      else (v, epilogue rc)

  -- A call that could not make its three OS/2 semaphores: `errno` is ENOSPC unless
  -- `os2compat_sem_destroy` sets it again.
  unfoldable pub init_failed : World → Sem → World × Sem × Status
  unfolding destroy
  init_failed w s = let (v, r) = destroy w s in (v, s, no_space r)

  -- `os2compat_sem_init` on a structure with the contents `s`; a handle is stored where its call
  -- succeeds.
  unfoldable pub init : World → Sem → ℕ → World × Sem × Status
  unfolding init_failed
  init w s value =
      if ltb sem_value_max value
      then (w, s, fail einval)
      else (let (v, rc, hev) = dos_create_event_sem w (ltb 0 value) in
          if is_ok rc
          then (let (u, rc', hmtx_wait) = dos_create_mutex_sem v in
              if is_ok rc'
              then (let (x, rc'', hmtx_count) = dos_create_mutex_sem u in
                  if is_ok rc''
                  then (
                    x,
                    record {
                      hev = hev;
                      hmtx_wait = hmtx_wait;
                      hmtx_count = hmtx_count;
                      count = pos value;
                    },
                    ok tt,
                  )
                  else init_failed x (record s { hev = hev; hmtx_wait = hmtx_wait }))
              else init_failed u (record s { hev = hev }))
          else init_failed v s)

  -- The part of `os2compat_sem_post` under the mutex.
  unfoldable pub post_counted : World → Sem → World × Sem × Rc
  unfolding forgive
  post_counted w s =
      if lt_ℤ s.count (pos sem_value_max)
      then (let (v, rc) = dos_post_event_sem w s.hev in
          (v, record s { count = increment s.count }, forgive rc))
      else (w, s, no_error)

  -- `os2compat_sem_post`
  unfoldable pub post : World → Sem → World × Sem × Status
  unfolding post_counted epilogue
  post w s =
      let (v, t, rc) = post_counted (dos_request_mutex_sem w s.hmtx_count) s in
      (dos_release_mutex_sem v s.hmtx_count, t, epilogue rc)

  -- `sem_wait_common` up to its wait.
  unfoldable pub wait_event : World → Sem → Timeout → World × Rc
  wait_event w s timeout = dos_wait_event_sem (dos_request_mutex_sem w s.hmtx_wait) s.hev timeout

  -- The part of `sem_wait_common` under the mutex `hmtxCount`.
  unfoldable pub take : World → Sem → World × Sem
  take w s =
      let v = dos_request_mutex_sem w s.hmtx_count in
      let n = decrement s.count in
      let u = if is_zero n then dos_reset_event_sem v s.hev else v in
      (dos_release_mutex_sem u s.hmtx_count, record s { count = n })

  -- `sem_wait_common`
  unfoldable pub wait_common : World → Sem → Timeout → World × Sem × Status
  unfolding wait_event take epilogue
  wait_common w s timeout =
      let (v, rc) = wait_event w s timeout in
      let (u, t) = if is_ok rc then take v s else (v, s) in
      (dos_release_mutex_sem u s.hmtx_wait, t, epilogue rc)

  -- `os2compat_sem_wait`
  unfoldable pub wait : World → Sem → World × Sem × Status
  unfolding wait_common
  wait w s = wait_common w s sem_indefinite_wait

  -- `os2compat_sem_trywait`
  unfoldable pub trywait : World → Sem → World × Sem × Status
  unfolding wait_common
  trywait w s = wait_common w s sem_immediate_return
