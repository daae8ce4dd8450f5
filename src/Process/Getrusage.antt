-- ===== src/Process/Getrusage.antt =====
-- process/getrusage.c: `getrusage`.
pub mod Sums
use os2compat.Prelude.{ℕ, ◌+◌, ◌*◌, ◌/◌, ◌%◌, ◌^◌, Option, none, some, List, [], ◌∷◌, ℤ}
use os2compat.System.{Errno, einval, Result, ok, fail}

-- RUSAGE_SELF, RUSAGE_CHILDREN, or another number.
pub data Who : Type 0 where
  rusage_self rusage_children : Who
  other_who : ℤ → Who

-- `QSTREC`, as far as it is read: the times of a thread in milliseconds.
pub record Thread : Type 0 where
  pub systime : ℕ
  pub usertime : ℕ

pub record TimeOfUse : Type 0 where
  pub tv_sec : ℕ
  pub tv_usec : ℕ

-- The members of `struct rusage` that are set; the code clears the others.
pub record Rusage : Type 0 where
  pub ru_utime : TimeOfUse
  pub ru_stime : TimeOfUse

-- The two sums of `getproctime`, which are of type ULONG.
pub record Times : Type 0 where
  pub stime : ℕ
  pub utime : ℕ

abbrev pub ulong : ℕ
ulong = 2 ^ 32

-- The loop of `getproctime`, from the sums so far.
unfoldable pub accumulate : Times → List Thread → Times
accumulate t [] = t
accumulate t (x ∷ xs) =
    accumulate
      (record { stime = (t.stime + x.systime) % ulong; utime = (t.utime + x.usertime) % ulong }) xs

-- `getproctime`, on what DosQuerySysState() answers: the threads, or `none`.
unfoldable pub getproctime : Option (List Thread) → Result Times
unfolding accumulate
getproctime none = fail einval
getproctime (some threads) = ok (accumulate (record { stime = 0; utime = 0 }) threads)

-- Milliseconds as a `struct timeval`.
unfoldable pub to_timeval : ℕ → TimeOfUse
to_timeval ms = record { tv_sec = ms / 1000; tv_usec = ms % 1000 * 1000 }

abbrev pub cleared : Rusage
cleared = record {
  ru_utime = record { tv_sec = 0; tv_usec = 0 };
  ru_stime = record { tv_sec = 0; tv_usec = 0 };
}

-- The times into the cleared structure.
unfoldable pub set_times : Result Times → Result Rusage
unfolding to_timeval
set_times (fail e) = fail e
set_times (ok t) = ok (record { ru_utime = to_timeval t.utime; ru_stime = to_timeval t.stime })

unfoldable pub getrusage : Who → Option (List Thread) → Result Rusage
unfolding getproctime set_times
getrusage rusage_self threads = set_times (getproctime threads)
getrusage rusage_children threads = ok cleared
getrusage (other_who n) threads = fail einval
