-- ===== src/Process/Tests.antt =====
-- process/: the theorems at concrete processes.
use os2compat.Prelude.{
  ℕ, ◌+◌, ◌==◌, ◌≡◌, refl, sym, ap, inl, inr, true, false, Bool-cases, if◌then◌else◌, Option, none,
  some, List, [], ◌∷◌, arith,
}
use os2compat.Process.Response.{
  Text, Arg, File, Runtime, is_response, line_arg, file_name, response_arg,
}
use os2compat.Process.Response.Expand.{response_arg-expanded}
use os2compat.System.{ok}
use os2compat.Process.Getrusage.{rusage_self, Thread, Rusage, getrusage}
use os2compat.Process.Getrusage.Sums.{Says, getrusage-Says}

abbrev two_threads : List Thread
two_threads =
    record { systime = 1500; usertime = 20 } ∷ record { systime = 700; usertime = 30 } ∷ []

getrusage-Says_example :
    (r : Rusage) × (getrusage rusage_self (some two_threads) ≡ ok r)
    × Says 50000 r.ru_utime
    × Says 2200000 r.ru_stime
getrusage-Says_example = getrusage-Says two_threads (omega arith) (omega arith)

abbrev file_ab : File
file_ab = record {
  filesize = 6;
  lines = (97 ∷ 10 ∷ []) ∷ (98 ∷ 99 ∷ 10 ∷ []) ∷ [];
  read_error = false;
}

abbrev named : Text → Option File
named [] = none
named (c ∷ cs) = if c == 120 then some file_ab else none

abbrev plenty : Runtime
plenty = record { World = ℕ; alloc = λ w. (w + 1, true); fopen = named }

named_reads : (name : Text) (f : File) → named name ≡ some f → f.read_error ≡ false
named_reads [] f e = cc e
named_reads (c ∷ cs) f e = elim (Bool-cases (c == 120)) [
  | inl t ↦
      let same : some file_ab ≡ some f = (rw t at e) in
      ap (λ (o : Option File). elim o [ none ↦ false | some g ↦ g.read_error ]) (sym same)
  | inr n ↦ let no_file : none ≡ some f = (rw n at e) in cc no_file
]

abbrev plain : Text → Option Arg
plain t = some (record { special = false; text = t })

-- The file `x` has the lines `a` and `bc`.
response_arg-expanded_example :
    (v : ℕ) × (response_arg plenty 0
        (plain (112 ∷ []))
        (plain (64 ∷ 120 ∷ []) ∷ plain (100 ∷ []) ∷ [])
      ≡ some (v, plain (112 ∷ []) ∷ plain (97 ∷ []) ∷ plain (98 ∷ 99 ∷ []) ∷ plain (100 ∷ []) ∷ []))
unfolding is_response line_arg file_name
response_arg-expanded_example =
    response_arg-expanded plenty (λ w. refl) named_reads 0 (plain (112 ∷ []))
      (plain (64 ∷ 120 ∷ []) ∷ plain (100 ∷ []) ∷ [])
