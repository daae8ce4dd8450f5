-- ===== src/Process/Response/Env.antt =====
-- process/_response.c: `response_env`, which sets the environment strings that a file has.
use os2compat.Prelude.{
  ◌==◌, if◌then◌else◌, Bool, true, false, ◌&&◌, Option, none, some, List, [], ◌∷◌,
}
use os2compat.Process.Response.{Text, File, Runtime, cut_line, and_then}
use os2compat.Process.Spawn.{at_sign}

-- What is behind a prefix, where the text has it.
unfoldable pub drop_prefix : Text → Text → Option Text
drop_prefix [] t = some t
drop_prefix (p ∷ ps) [] = none
drop_prefix (p ∷ ps) (c ∷ cs) = let rest = drop_prefix ps cs in if p == c then rest else none

-- The first string that begins with the key, behind the key.
unfoldable pub find_key : Text → List Text → Option Text
unfolding drop_prefix
find_key key [] = none
find_key key (e ∷ es) = elim (drop_prefix key e) [ none ↦ find_key key es | some rest ↦ some rest ]

-- The name of the file, behind `=@`.
unfoldable pub env_file_name : Option Text → Option Text
env_file_name none = none
env_file_name (some []) = none
env_file_name (some (c ∷ [])) = none
env_file_name (some (c ∷ d ∷ name)) = if c == 61 && d == at_sign then some name else none

-- RSP_ENV_FILE_KEY, which is the name that spawnve() uses, without its `=`.
abbrev pub env_key : Text
env_key =
    64
    ∷ (95
        ∷ (95
            ∷ (75
                ∷ (76
                    ∷ (73
                        ∷ (66
                            ∷ (67
                                ∷ (95
                                    ∷ (69
                                        ∷ (78
                                            ∷ (86
                                                ∷ (95
                                                    ∷ (82
                                                        ∷ (69
                                                            ∷ (83
                                                            ∷ (80
                                                            ∷ (79
                                                            ∷ (78
                                                            ∷ (83
                                                            ∷ (69
                                                            ∷ (95
                                                            ∷ (95 ∷ (64 ∷ [])))))))))))))))))))))))

-- `putenv` is that of the runtime, on the strings of `environ`.
module _ (rt : Runtime) (putenv : List Text → Text → List Text) where
  open rt use {World, alloc, fopen}

  -- What follows an allocation; `none` is that the process has ended with the code 255.
  abbrev pub if_got : {A : Type 0} → World × Bool → (World → Option A) → Option A
  if_got (w, false) f = none
  if_got (w, true) f = f w

  -- The loop on the lines.
  unfoldable pub put_env_lines : List Text → World → List Text → Option (World × List Text)
  unfolding cut_line
  put_env_lines [] w env = some (w, env)
  put_env_lines (l ∷ ls) w env =
      if_got (alloc w) (λ v. put_env_lines ls v (putenv env (cut_line l)))

  -- The end, behind the loop.
  abbrev pub remove_key : Bool → World × List Text → Option (World × List Text)
  remove_key true r = none
  remove_key false (w, env) = some (w, putenv env env_key)

  unfoldable pub read_env_file : World → List Text → Option File → Option (World × List Text)
  unfolding put_env_lines and_then
  read_env_file w env none = some (w, env)
  read_env_file w env (some f) =
      if f.filesize == 0
      then some (w, env)
      else if_got (alloc w) (λ v. and_then (put_env_lines f.lines v env) (remove_key f.read_error))

  abbrev pub open_named : Option Text → Option File
  open_named none = none
  open_named (some name) = fopen name

  -- `response_env`
  unfoldable pub response_env : World → List Text → Option (World × List Text)
  unfolding read_env_file find_key env_file_name
  response_env w env = read_env_file w env (open_named (env_file_name (find_key env_key env)))
