-- ===== src/Process/Getrusage/Sums.antt =====
-- process/getrusage.c: what the times of `getrusage` say.
use os2compat.Prelude.{ℕ, ◌+◌, ◌*◌, ◌%◌, ◌≡◌, ◌<◌, refl, some, List, [], ◌∷◌, arith}
use os2compat.System.{ok}
use os2compat.Process.Getrusage.{
  rusage_self, Thread, TimeOfUse, Rusage, Times, ulong, accumulate, getproctime, to_timeval,
  set_times, getrusage,
}

-- The sums over all threads, as numbers.
abbrev pub sum_of : (Thread → ℕ) → List Thread → ℕ
sum_of f [] = 0
sum_of f (x ∷ xs) = f x + sum_of f xs

-- The time in microseconds, of which less than a second is in `tv_usec`.
abbrev pub Says : ℕ → TimeOfUse → Type 0
Says us t = (t.tv_sec * 1000000 + t.tv_usec ≡ us) × (t.tv_usec < 1000000)

to_timeval-Says : (ms total : ℕ) → ms ≡ 0 + total → Says (total * 1000) (to_timeval ms)
unfolding to_timeval
to_timeval-Says ms total e = (omega arith, omega arith)

accumulate-sum :
    (t : Times) (xs : List Thread)
    → t.stime + sum_of (λ x. x.systime) xs < ulong
    → t.utime + sum_of (λ x. x.usertime) xs < ulong
    → ((accumulate t xs).stime ≡ t.stime + sum_of (λ x. x.systime) xs)
      × ((accumulate t xs).utime ≡ t.utime + sum_of (λ x. x.usertime) xs)
unfolding accumulate
accumulate-sum t [] h k = (omega arith, omega arith)
accumulate-sum t (x ∷ xs) h k =
    let next : Times = record {
      stime = (t.stime + x.systime) % ulong;
      utime = (t.utime + x.usertime) % ulong;
    } in
    let (s, u) = accumulate-sum next xs (omega arith) (omega arith) in
    (omega (arith, s), omega (arith, u))

-- Where the sums of the threads' times fit into 32 bits, getrusage() of the process itself
-- succeeds, and its user and system times, in seconds and microseconds, are those sums, taken in
-- milliseconds.
pub getrusage-Says :
    (xs : List Thread)
    → sum_of (λ x. x.systime) xs < ulong
    → sum_of (λ x. x.usertime) xs < ulong
    → (r : Rusage) × (getrusage rusage_self (some xs) ≡ ok r)
      × Says (sum_of (λ x. x.usertime) xs * 1000) r.ru_utime
      × Says (sum_of (λ x. x.systime) xs * 1000) r.ru_stime
unfolding getrusage getproctime set_times
getrusage-Says xs h k =
    let t = accumulate (record { stime = 0; utime = 0 }) xs in
    let (s, u) = accumulate-sum (record { stime = 0; utime = 0 }) xs (omega arith) (omega arith) in
    (
      record { ru_utime = to_timeval t.utime; ru_stime = to_timeval t.stime },
      refl,
      to_timeval-Says t.utime (sum_of (λ x. x.usertime) xs) u,
      to_timeval-Says t.stime (sum_of (λ x. x.systime) xs) s,
    )
