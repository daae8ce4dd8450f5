-- ===== src/Thread/Tests.antt =====
-- thread/semaphore.c: the theorems at concrete semaphores, where the world is one event semaphore.
use os2compat.Prelude.{ℕ, ◌≡◌, ◌<◌, refl, Bool, true, false, if◌then◌else◌, pos, arith}
use os2compat.System.{einval, ok, fail}
use os2compat.Thread.Semaphore.{
  Rc, no_error, error_timeout, error_already_posted, sem_indefinite_wait, Os, Sem, sem_value_max,
  post_counted, post, wait_event, take, trywait, init,
}
use os2compat.Thread.Semaphore.Laws.{EventLaws, Counts, post-Counts, trywait-Counts}
use os2compat.Thread.Semaphore.Init.{CreateLaws, init-Counts}
use os2compat.Thread.Semaphore.Reach.{
  State, posts, wakes, takes, after_post, after_wait, after_take, Run, starts, then_step, Balanced,
  Run-Balanced,
}

abbrev wait_answer : Bool → Rc
wait_answer b = if b then no_error else error_timeout

abbrev post_answer : Bool → Rc
post_answer b = if b then error_already_posted else no_error

abbrev flag : Os
flag = record {
  World = Bool;
  dos_create_event_sem = λ w b. (b, no_error, 1);
  dos_create_mutex_sem = λ w. (w, no_error, 2);
  dos_close_event_sem = λ w h. (w, no_error);
  dos_close_mutex_sem = λ w h. (w, no_error);
  dos_request_mutex_sem = λ w h. w;
  dos_release_mutex_sem = λ w h. w;
  dos_post_event_sem = λ w h. (true, post_answer w);
  dos_wait_event_sem = λ w h t. (w, wait_answer w);
  dos_reset_event_sem = λ w h. false;
  posted = λ w h. w;
}

waited_answer : (w : Bool) → wait_answer w ≡ no_error → w ≡ true
waited_answer true e = refl
waited_answer false e = cc e

flag-EventLaws : EventLaws flag
flag-EventLaws = record {
  post_posts = λ w h e. refl;
  wait_keeps = λ w h t. refl;
  wait_needs = λ w h t e. waited_answer w e;
  try_posted = λ w h. refl;
  reset_resets = λ w h. refl;
  request_keeps = λ w m h. refl;
  release_keeps = λ w m h. refl;
}

flag-CreateLaws : CreateLaws flag
flag-CreateLaws = record { event = λ w b e. refl; mutex = λ w h. refl }

abbrev sem_of : ℕ → Sem
sem_of n = record { hev = 1; hmtx_wait = 2; hmtx_count = 2; count = pos n }

sem_two-Counts : Counts flag true (sem_of 2) 2
sem_two-Counts = record { value = refl; bound = omega arith; event = refl }

init-Counts_example :
    (sem_value_max < 2 → init flag false (sem_of 0) 2 ≡ (false, sem_of 0, fail einval))
    × (let (v, t, r) = init flag false (sem_of 0) 2 in r ≡ ok tt → Counts flag v t 2)
init-Counts_example = init-Counts flag flag-CreateLaws false (sem_of 0) 2

post-Counts_example : Counts flag true (sem_of 3) 3
unfolding post post_counted
post-Counts_example = (post-Counts flag flag-EventLaws true (sem_of 2) 2 sem_two-Counts refl).0

trywait-Counts_example :
    let (v, t, r) = trywait flag true (sem_of 2) in (r ≡ ok tt) × Counts flag v t 1
trywait-Counts_example =
    (trywait-Counts flag flag-EventLaws true (sem_of 2) 2 sem_two-Counts).1 1 refl

abbrev begun : State flag
begun = record { world = true; sem = sem_of 2; woken = false }

-- A thread wakes, another posts, and the first takes its unit.
woken-Run :
    Run flag 2 1 1 (after_take flag (after_post flag (after_wait flag sem_indefinite_wait begun)))
unfolding post post_counted wait_event take
woken-Run =
    then_step
      (then_step (then_step (starts sem_two-Counts refl) (wakes sem_indefinite_wait refl refl))
        (posts refl))
      (takes refl)

Run-Balanced_example :
    Balanced flag 2 1 1
      (after_take flag (after_post flag (after_wait flag sem_indefinite_wait begun)))
Run-Balanced_example = Run-Balanced flag flag-EventLaws 2 woken-Run
