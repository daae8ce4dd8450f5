-- ===== src/Memory/Mmap/FileLaws.antt =====
-- memory/mmap.c: the loop and the file position of `readFromFile` and `writeToFile`.
use os2compat.Prelude.{
  ℕ, zero, suc, ◌-◌, ◌≡◌, ◌≤◌, ◌<◌, ◌⊎◌, ◌≢◌, ◌%◌, ◌^◌, ltb, true, false, refl, inl, inr, ℤ, pos,
  negsuc, eq_ℤ, lt_or_le, Bool-cases, arith,
}
use os2compat.System.{Errno, Status, Result, ok, fail}
use os2compat.Memory.Os.{Os, seek_set, seek_cur}
use os2compat.Memory.Mmap.{word, add_word, sub_word}
use os2compat.Memory.Mmap.File.{
  write_at, to_int, first_error, kept_position, read_from, write_from, read_loop, restore_position,
  read_at, read_from_file, write_to_file,
}

-- The documented behaviour of read(): it never returns more than it was asked for.
abbrev pub ReadsAtMost : Os → Type 0
ReadsAtMost os = (w : os.World) (fd : ℤ) (buf len n : ℕ) → (os.read w fd buf len).1 ≡ ok n → n ≤ len

-- What a `read` may answer.
abbrev Answers : Result ℕ → Type 0
Answers r = ((e : Errno) × (r ≡ fail e)) ⊎ (r ≡ ok zero) ⊎ ((n : ℕ) × (r ≡ ok (suc n)))

answers : (r : Result ℕ) → Answers r
answers (fail e) = inl (e, refl)
answers (ok zero) = inr (inl refl)
answers (ok (suc n)) = inr (inr (n, refl))

-- The documented behaviour of lseek(): where a seek to an offset succeeds, that is the position
-- afterwards, and no seek to a negative one succeeds.
pub record SeekLaws (os : Os) : Type 0 where
  pub there :
      (w : os.World) (fd : ℤ) (n m : ℕ)
      → (os.lseek w fd (pos n) seek_set).1 ≡ ok m
      → (os.lseek (os.lseek w fd (pos n) seek_set).0 fd (pos 0) seek_cur).1 ≡ ok n
  pub negative : (w : os.World) (fd : ℤ) (n m : ℕ) → (os.lseek w fd (negsuc n) seek_set).1 ≢ ok m

-- No seek of the descriptor to an offset that is not negative fails.
abbrev pub Seekable : Os → ℤ → Type 0
Seekable os fd = (w : os.World) (n : ℕ) → (m : ℕ) × ((os.lseek w fd (pos n) seek_set).1 ≡ ok m)

to_int-small : (n : ℕ) → n < 2 ^ 31 → to_int n ≡ pos n
unfolding to_int
to_int-small n h =
    let same : n % word ≡ n = omega arith in
    let fits : ltb n (2 ^ 31) ≡ true = ground arith in rw (same, fits) refl

to_int-large : (n : ℕ) → n < word → 2 ^ 31 ≤ n → to_int n ≡ negsuc (word - 1 - n)
unfolding to_int
to_int-large n h k =
    let same : n % word ≡ n = omega arith in
    let large : ltb n (2 ^ 31) ≡ false = ground arith in rw (same, large) refl

module _ (os : Os) where
  open os use {World, lseek, read, write}

  sub_word-lt :
      (len n : ℕ) → suc len < word → suc n ≤ suc len → sub_word (suc len) (suc n) ≡ len - n
  sub_word-lt len n h k = omega arith

  -- Where `read` never returns more than it was asked for, any number of rounds that is at least
  -- the number of bytes asked for gives the same result: the loop has ended by its own test.
  pub read_loop-enough :
      ReadsAtMost os
      → (f g : ℕ) (w : World) (fd : ℤ) (buf len : ℕ) → len < word
      → len ≤ f
      → len ≤ g
      → read_loop os f w fd buf len ≡ read_loop os g w fd buf len
  unfolding read_loop
  read_loop-enough most zero zero w fd buf len s h k = refl
  read_loop-enough most zero (suc g) w fd buf zero s h k = refl
  read_loop-enough most zero (suc g) w fd buf (suc len) s h k = absurd (omega arith)
  read_loop-enough most (suc f) zero w fd buf zero s h k = refl
  read_loop-enough most (suc f) zero w fd buf (suc len) s h k = absurd (omega arith)
  read_loop-enough most (suc f) (suc g) w fd buf zero s h k = refl
  read_loop-enough most (suc f) (suc g) w fd buf (suc len) s h k =
      elim (answers (read w fd buf (suc len)).1) [
        | inl (e, q) ↦ rw (q, read_loop) refl
        | inr (inl q) ↦ rw (q, read_loop) refl
        | inr (inr (n, q)) ↦
            let few : suc n ≤ suc len = most w fd buf (suc len) (suc n) q in
            let left : sub_word (suc len) (suc n) ≡ len - n = sub_word-lt len n s few in
            rw (q, read_loop, left)
              (read_loop-enough most f g (read w fd buf (suc len)).0 fd (add_word buf (suc n))
                (len - n) (omega arith) (omega arith) (omega arith))
      ]

  -- What the label leaves where it succeeds.
  first_error-ok :
      (r : Status) (back : Result ℕ) → first_error os r back ≡ ok tt → (n : ℕ) × (back ≡ ok n)
  first_error-ok (fail e) back h = cc
  first_error-ok (ok _) (fail e) h = cc
  first_error-ok (ok _) (ok n) h = (n, refl)

  restore_position-Back :
      SeekLaws os
      → (fd : ℤ) (position : ℕ) (r : World × Status) → position < word
      → (restore_position os fd (to_int position) r).1 ≡ ok tt
      → (position < 2 ^ 31)
        × ((lseek (restore_position os fd (to_int position) r).0 fd (pos 0) seek_cur).1
            ≡ ok position)
  unfolding restore_position
  restore_position-Back laws fd position (w, r) small = elim (lt_or_le position (2 ^ 31)) [
    | inl low ↦
        rw (to_int-small position low)
          (λ h. let (n, back) = first_error-ok r _ h in (low, laws.there w fd position n back))
    | inr high ↦
        rw (to_int-large position small high)
          (λ h. let (n, back) = first_error-ok r _ h in absurd (laws.negative w fd _ n back))
  ]

  restore_position-there :
      SeekLaws os
      → (fd : ℤ) (position : ℕ) (r : World × Status) → Seekable os fd
      → (lseek (restore_position os fd (pos position) r).0 fd (pos 0) seek_cur).1 ≡ ok position
  unfolding restore_position
  restore_position-there laws fd position (w, r) seekable =
      let (n, back) = seekable w position in laws.there w fd position n back

  -- With an lseek() as SeekLaws says: where readFromFile() succeeds from a file position below 4
  -- GB, the position was below 2 GB and is again what it was. From a position below 2 GB, with a
  -- descriptor on which seeks succeed, the position is again what it was after readFromFile() and
  -- after writeToFile() on every path, whatever fails between.
  pub restores :
      SeekLaws os
      → (w : World) (fd off : ℤ) (buf len position : ℕ)
      → (lseek w fd (pos 0) seek_cur).1 ≡ ok position
      → (position < word
          → (read_from_file os w fd off buf len).1 ≡ ok tt
          → (position < 2 ^ 31)
            × ((lseek (read_from_file os w fd off buf len).0 fd (pos 0) seek_cur).1 ≡ ok position))
        × (position < 2 ^ 31
            → Seekable os fd
            → ((lseek (read_from_file os w fd off buf len).0 fd (pos 0) seek_cur).1 ≡ ok position)
              × ((lseek (write_to_file os w fd off buf len).0 fd (pos 0) seek_cur).1 ≡ ok position))
  unfolding read_from_file write_to_file kept_position read_from write_from
  restores laws w fd off buf len position here = (
    λ small. elim (Bool-cases (eq_ℤ (to_int position) (negsuc 0))) [
      | inl minus ↦ rw (here, kept_position, minus, read_from) (λ e. cc)
      | inr known ↦
          rw (here, kept_position, known, read_from)
            (restore_position-Back laws fd position (read_at os fd off buf len _) small)
    ],
    λ low seekable.
        let known : eq_ℤ (pos position) (negsuc 0) ≡ false = ground arith in
        rw (here, kept_position, to_int-small position low, known, read_from, write_from)
          (
            restore_position-there laws fd position (read_at os fd off buf len _) seekable,
            restore_position-there laws fd position (write_at os fd off buf len _) seekable,
          ),
  )

  -- `writeToFile` succeeds whenever the file position can be read and is below 2 GB, whether or not
  -- its write does.
  pub write_to_file_blind :
      (w : World) (fd off : ℤ) (buf len position : ℕ)
      → position < 2 ^ 31
      → (lseek w fd (pos 0) seek_cur).1 ≡ ok position
      → (write_to_file os w fd off buf len).1 ≡ ok tt
  unfolding write_to_file kept_position write_from
  write_to_file_blind w fd off buf len position small h =
      let known : eq_ℤ (pos position) (negsuc 0) ≡ false = ground arith in
      rw (h, kept_position, to_int-small position small, known, write_from) refl
