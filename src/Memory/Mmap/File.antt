-- ===== src/Memory/Mmap/File.antt =====
-- memory/mmap.c: reading a file into memory and writing memory to a file.
use os2compat.Prelude.{ℕ, zero, suc, ◌-◌, ◌%◌, ◌^◌, ◌==◌, if◌then◌else◌, ltb, ℤ, pos, negsuc, eq_ℤ}
use os2compat.System.{Result, ok, fail, Status}
use os2compat.Memory.Os.{Os, seek_set, seek_cur}
use os2compat.Memory.Mmap.{add_word, sub_word, whole_file, word}

-- An `off_t` assigned to a `size_t`.
abbrev pub to_size : ℤ → ℕ
to_size (pos n) = n % word
to_size (negsuc n) = sub_word 0 (suc n % word)

-- An `off_t` or an address assigned to an `int` of 32 bits.
unfoldable pub to_int : ℕ → ℤ
to_int n = let m = n % word in if ltb m (2 ^ 31) then pos m else negsuc (word - 1 - m)

module _ (os : Os) where
  open os use {World, lseek, errno, read, write, filelength}

  -- The loop of `readFromFile`: a `read` of 0 bytes ends it. It is run on `len` rounds of fuel
  -- (FileLaws).
  unfoldable pub read_loop : ℕ → World → ℤ → ℕ → ℕ → World × Status
  read_loop zero w fd rdbuf len = (w, ok tt)
  read_loop (suc fuel) w fd rdbuf zero = (w, ok tt)
  read_loop (suc fuel) w fd rdbuf (suc len) =
      let (v, r) = read w fd rdbuf (suc len) in
      elim r [
        | fail e ↦ (v, fail e)
        | ok zero ↦ (v, ok tt)
        | ok (suc n) ↦ read_loop fuel v fd (add_word rdbuf (suc n)) (sub_word (suc len) (suc n))
      ]

  -- The answer after the position is restored: the first error wins.
  abbrev pub first_error : Status → Result ℕ → Status
  first_error (fail e) _ = fail e
  first_error (ok _) (fail e) = fail e
  first_error (ok _) (ok _) = ok tt

  -- The label `exit_lseek` of both functions.
  unfoldable pub restore_position : ℤ → ℤ → World × Status → World × Status
  restore_position fd position (w, r) =
      let (v, back) = lseek w fd position seek_set in (v, first_error r back)

  -- From the seek to `off` to the label, in `readFromFile`.
  unfoldable pub read_at : ℤ → ℤ → ℕ → ℕ → World → World × Status
  unfolding read_loop
  read_at fd off buf len w =
      let (v, seek) = lseek w fd off seek_set in
      elim seek [
        | fail e ↦ (v, fail e)
        | ok _ ↦
            if len == whole_file
            then (let (u, size) = filelength v fd in
                read_loop (to_size size) u fd buf (to_size size))
            else read_loop len v fd buf len
      ]

  -- `int pos = lseek( fd, 0, SEEK_CUR )` and the test on it: the position is kept as an `int`, and
  -- one that becomes -1 is taken for an error, with the `errno` of an earlier call.
  unfoldable pub kept_position : World × Result ℕ → World × Result ℤ
  unfolding to_int
  kept_position (w, fail e) = (w, fail e)
  kept_position (w, ok n) =
      if eq_ℤ (to_int n) (negsuc 0) then (w, fail (errno w)) else (w, ok (to_int n))

  -- `readFromFile` from the test on the position.
  unfoldable pub read_from : ℤ → ℤ → ℕ → ℕ → World × Result ℤ → World × Status
  unfolding read_at restore_position
  read_from fd off buf len (w, fail e) = (w, fail e)
  read_from fd off buf len (w, ok position) =
      restore_position fd position (read_at fd off buf len w)

  -- `readFromFile`
  unfoldable pub read_from_file : World → ℤ → ℤ → ℕ → ℕ → World × Status
  unfolding kept_position read_from
  read_from_file w fd off buf len =
      read_from fd off buf len (kept_position (lseek w fd (pos 0) seek_cur))

  abbrev pub written : Result ℕ → Status
  written (fail e) = fail e
  written (ok _) = ok tt

  -- From the seek to `off` to the label, in `writeToFile`.
  unfoldable pub write_at : ℤ → ℤ → ℕ → ℕ → World → World × Status
  write_at fd off buf len w =
      let (v, seek) = lseek w fd off seek_set in
      elim seek [
        | fail e ↦ (v, fail e)
        | ok _ ↦ (let (u, r) = write v fd buf len in (u, written r))
      ]

  -- `writeToFile` from the test on the position: its last line returns 0 whatever `rc` is.
  unfoldable pub write_from : ℤ → ℤ → ℕ → ℕ → World × Result ℤ → World × Status
  unfolding write_at restore_position
  write_from fd off buf len (w, fail e) = (w, fail e)
  write_from fd off buf len (w, ok position) =
      let (v, rc) = restore_position fd position (write_at fd off buf len w) in (v, ok tt)

  -- `writeToFile`
  unfoldable pub write_to_file : World → ℤ → ℤ → ℕ → ℕ → World × Status
  unfolding kept_position write_from
  write_to_file w fd off buf len =
      write_from fd off buf len (kept_position (lseek w fd (pos 0) seek_cur))
