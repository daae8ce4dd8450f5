-- ===== src/Process/Response/Restore.antt =====
-- process/_response.c and process/spawn.c: the environment that a child gets through a file.
use os2compat.Prelude.{
  ℕ, ◌<◌, sym, ◌∙◌, if◌then◌else◌, length, length-append, ◌==◌, ◌≡◌, refl, ap, Bool, true, false,
  ◌||◌, none, some, List, [], ◌∷◌, ◌++◌, map, arith,
}
use os2compat.Process.Response.{Text, File, Runtime, cut_line, and_then}
use os2compat.Process.Response.Env.{
  drop_prefix, find_key, env_file_name, env_key, put_env_lines, read_env_file, response_env,
}
use mathlib.Core.List.{append_assoc, append-nil}
use os2compat.Process.Spawn.{
  Str, Os, env_size_max, size_from, rsp_env_file_key, at_sign, newline, passed_env, split_env,
  write_strs, write_rsp_file, write_env,
}
use os2compat.Process.Spawn.Split.{Interleaved, Interleaved-length, split_env-parted}

-- The text has a line feed.
abbrev pub has_lf : Text → Bool
has_lf [] = false
has_lf (c ∷ cs) = c == 10 || has_lf cs

-- The text with a line feed behind it, as spawnve() writes it.
abbrev pub with_lf : Text → Text
with_lf s = s ++ (10 ∷ [])

-- A byte in front of the first line.
abbrev in_front : ℕ → List Text → List Text
in_front c [] = (c ∷ []) ∷ []
in_front c (l ∷ ls) = (c ∷ l) ∷ ls

-- The lines of the bytes, each up to its line feed and with it.
abbrev pub lines_of : Text → List Text
lines_of [] = []
lines_of (c ∷ cs) = let rest = lines_of cs in if c == 10 then (c ∷ []) ∷ rest else in_front c rest

abbrev pub OneLine : List Text → Type 0
OneLine [] = Unit {0}
OneLine (s ∷ ss) = (has_lf s ≡ false) × OneLine ss

-- No string begins with the key.
abbrev pub NoKey : List Text → Type 0
NoKey [] = Unit {0}
NoKey (s ∷ ss) = (drop_prefix env_key s ≡ none) × NoKey ss

-- `putenv` of each string, in order.
abbrev pub put_all : (List Text → Text → List Text) → List Text → List Text → List Text
put_all putenv [] env = env
put_all putenv (s ∷ ss) env = put_all putenv ss (putenv env s)

cut_line-with_lf : (s : Text) → has_lf s ≡ false → cut_line (with_lf s) ≡ s
unfolding cut_line
cut_line-with_lf [] no_lf = refl
cut_line-with_lf (c ∷ cs) no_lf =
    let here : (c == 10) ≡ false = ground arith in
    let later : has_lf cs ≡ false = ground arith in
    rw here (ap (λ r. c ∷ r) (cut_line-with_lf cs later))

find_key-passed :
    (kept : List Text) (file : Text)
    → NoKey kept
    → find_key env_key (kept ++ ((rsp_env_file_key ++ (at_sign ∷ file)) ∷ []))
      ≡ some (61 ∷ (at_sign ∷ file))
unfolding find_key drop_prefix
find_key-passed [] file no_key = refl
find_key-passed (s ∷ ss) file (here, later) = rw (here, find_key) (find_key-passed ss file later)

-- What the runtime has of a file with these bytes: its size, and with fgets(), whose buffer holds
-- the whole file, the lines, each with its line feed.
pub record ReadsAs (bytes : Text) (f : File) : Type 0 where
  pub size : f.filesize ≡ length bytes
  pub lines : f.lines ≡ lines_of bytes
  pub no_error : f.read_error ≡ false

-- `content w file` are the bytes in the file: write() puts bytes behind them and close() leaves
-- them as they are.
pub record ContentLaws (os : Os) : Type 0 where
  pub content : os.World → Str → Text
  pub write-content :
      (w : os.World) (file bytes : Str)
      → content (os.write w file bytes) file ≡ content w file ++ bytes
  pub close-content : (w : os.World) (file : Str) → content (os.close w file) file ≡ content w file

-- The strings with their line feeds, one behind the other.
abbrev joined : List Text → Text
joined [] = []
joined (s ∷ ss) = with_lf s ++ joined ss

joined-positive : (ss : List Text) → 0 < length ss → 0 < length (joined ss)
joined-positive [] h = absurd (omega arith)
joined-positive (s ∷ ss) h =
    omega (arith, length-append (with_lf s) (joined ss), length-append s (10 ∷ []))

lines_of-with_lf :
    (s rest : Text) → has_lf s ≡ false → lines_of (with_lf s ++ rest) ≡ with_lf s ∷ lines_of rest
lines_of-with_lf [] rest no_lf = refl
lines_of-with_lf (c ∷ cs) rest no_lf =
    let here : (c == 10) ≡ false = ground arith in
    let later : has_lf cs ≡ false = ground arith in rw (here, lines_of-with_lf cs rest later) refl

lines_of-joined : (ss : List Text) → OneLine ss → lines_of (joined ss) ≡ map with_lf ss
lines_of-joined [] one = refl
lines_of-joined (s ∷ ss) (here, later) =
    lines_of-with_lf s (joined ss) here ∙ ap (λ r. with_lf s ∷ r) (lines_of-joined ss later)

module _ (os : Os) (laws : ContentLaws os) where
  open os use {World}
  open laws use {content, write-content, close-content}

  write_strs-content :
      (w : World) (file : Str) (ss : List Str)
      → content (write_strs os w file ss) file ≡ content w file ++ joined ss
  unfolding write_strs
  write_strs-content w file [] = sym (append-nil (content w file))
  write_strs-content w file (s ∷ ss) =
      rw
        (
          write_strs-content (os.write (os.write w file s) file newline) file ss,
          write-content (os.write w file s) file newline,
          write-content w file s,
          append_assoc (content w file) s newline,
          append_assoc (content w file) (s ++ newline) (joined ss),
        )
        refl

  -- The bytes that `write_rsp_file` leaves in a file that was empty.
  write_rsp_file-content :
      (w : World) (file : Str) (ss : List Str)
      → content w file ≡ []
      → content (write_rsp_file os w file ss) file ≡ joined ss
  unfolding write_rsp_file
  write_rsp_file-content w file ss empty =
      close-content (write_strs os w file ss) file
      ∙ write_strs-content w file ss
      ∙ ap (λ b. b ++ joined ss) empty

module _ (rt : Runtime) (putenv : List Text → Text → List Text)
    (plenty : (w : rt.World) → (rt.alloc w).1 ≡ true) where
  open rt use {World, alloc}

  put_env_lines-all :
      (ss : List Text) (w : World) (env : List Text)
      → OneLine ss
      → (v : World) × (put_env_lines rt putenv (map with_lf ss) w env
          ≡ some (v, put_all putenv ss env))
  unfolding put_env_lines
  put_env_lines-all [] w env one = (w, refl)
  put_env_lines-all (s ∷ ss) w env (here, later) =
      let (v, done) = put_env_lines-all ss (alloc w).0 (putenv env s) later in
      (v, rw (plenty w, cut_line-with_lf s here) done)

  -- spawnve() has written the strings of a big environment that do not stay to the empty file that
  -- mkstemp() has made, with calls as ContentLaws says, and passes the others with the name of the
  -- file. If the runtime then reads the bytes of that file line by line, no allocation fails, no
  -- string of the file has a line feed and no string that stays begins with the key: the strings
  -- are parted, in their order, into those that stay and those of the file, and of what was passed
  -- response_env() makes the environment with each string of the file set, in order, and the name
  -- of the file unset.
  pub response_env-write_env :
      (os : Os) (laws : ContentLaws os) (v : os.World) (strs : List Text) (name : Text) (f : File)
      (w : World)
      → env_size_max < size_from 1 strs
      → laws.content v name ≡ []
      → rt.fopen name ≡ some f
      → ReadsAs (laws.content (write_env os v name strs) name) f
      → OneLine (split_env 1 strs).1
      → NoKey (split_env 1 strs).0
      → Interleaved (split_env 1 strs).0 (split_env 1 strs).1 strs
        × ((u : World) × (response_env rt putenv w (passed_env strs name)
              ≡ some
                  (u, putenv (put_all putenv (split_env 1 strs).1 (passed_env strs name)) env_key)))
  unfolding response_env read_env_file env_file_name and_then write_env
  response_env-write_env os laws v strs name f w big empty opened reads one no_key =
      let kept = (split_env 1 strs).0 in
      let filed = (split_env 1 strs).1 in
      let (parted, _, shorter) = split_env-parted strs big in
      let bytes = write_rsp_file-content os laws v name filed empty in
      let lines : f.lines ≡ map with_lf filed =
        reads.lines ∙ ap lines_of bytes ∙ lines_of-joined filed one in
      let some_filed : 0 < length filed = omega (arith, Interleaved-length parted) in
      let size : (f.filesize == 0) ≡ false =
        ground (arith, reads.size ∙ ap length bytes, joined-positive filed some_filed) in
      let (u, done) = put_env_lines-all filed (alloc w).0 (passed_env strs name) one in
      (
        parted,
        (
          u,
          rw (find_key-passed kept name no_key, opened, size, plenty w, lines, done, reads.no_error)
              refl,
        ),
      )
