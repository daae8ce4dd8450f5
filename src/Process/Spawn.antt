-- ===== src/Process/Spawn.antt =====
-- process/spawn.c: spawnve() with response files for arguments and environments that are too big.
pub mod Split
pub mod Listed
mod Tests
use os2compat.Prelude.{
  ℕ, ltb, ◌+◌, ◌*◌, ◌-◌, if◌then◌else◌, Bool, true, false, Option, none, some, List, [], ◌∷◌, ◌++◌,
  ℤ, pos, length,
}
use os2compat.System.{Errno, e2big, einval, Result, ok, fail}

abbrev pub Str : Type 0
Str = List ℕ

-- ARG_SIZE_MAX, ENV_SIZE_MAX and ENV_STR_MAX
abbrev pub arg_size_max : ℕ
arg_size_max = 32 * 1024 - 256

abbrev pub env_size_max : ℕ
env_size_max = 32 * 1024 - 256

abbrev pub env_str_max : ℕ
env_str_max = 80 * 25

-- `mode & 0xFF`
pub data SpawnKind : Type 0 where
  p_wait p_overlay other_kind : SpawnKind

-- `struct rsp_temp`
pub record RspTemp : Type 0 where
  pub pid : ℕ
  pub name : Str

pub data RspTemplate : Type 0 where
  arg_rsp env_rsp : RspTemplate

-- The calls on a state of the world.
pub record Os : Type 1 where
  pub World : Type 0
  pub std_spawnve : World → SpawnKind → Str → List Str → Option (List Str) → World × Result ℕ
  -- The name that `mkstemp` makes of a template; the file is open.
  pub mkstemp : World → RspTemplate → World × Result Str
  -- `write` of bytes to the open file of the name, and `close` of it; the code reads neither answer.
  pub write : World → Str → Str → World
  pub close : World → Str → World
  pub remove : World → Str → World
  pub environ : World → List Str
  -- `_path2` with ".exe"
  pub path2 : World → Str → Result Str
  -- `getenv("OS2COMPAT_SPAWN_SKIP_LIBC") != NULL`
  pub skips_libc : World → Bool

-- The static variables, with the list at `rsp_temp_start`.
pub record Spawner (W : Type 0) : Type 0 where
  pub world : W
  pub rsp_temps : List RspTemp
  pub skip_libc : Option Bool

-- The response files of one call: `arg_big` and `env_big` are that there is one.
pub record RspFiles : Type 0 where
  pub arg_file : Option Str
  pub env_file : Option Str

-- The size that the strings take, behind `n` bytes.
unfoldable pub size_from : ℕ → List Str → ℕ
size_from n [] = n
size_from n (s ∷ ss) = size_from (n + (length s + 1)) ss

-- The loop on the environment strings, from `n` on: those that stay, and those that go to the file.
unfoldable pub split_env : ℕ → List Str → List Str × List Str
split_env n [] = ([], [])
split_env n (s ∷ ss) =
    let m = n + (length s + 1) in
    let skipped = split_env n ss in
    let counted = split_env m ss in
    if ltb env_str_max (length s)
    then (skipped.0, s ∷ skipped.1)
    else if ltb env_size_max m
    then (counted.0, s ∷ counted.1)
    else (s ∷ counted.0, counted.1)

-- `"\n"`
abbrev pub newline : Str
newline = 10 ∷ []

-- `@`
abbrev pub at_sign : ℕ
at_sign = 64

-- "@__KLIBC_ENV_RESPONSE__@="
abbrev pub rsp_env_file_key : Str
rsp_env_file_key =
    64
    ∷ (95
        ∷ (95
            ∷ (75
                ∷ (76
                    ∷ (73
                        ∷ (66
                            ∷ (67
                                ∷ (95
                                    ∷ (69
                                        ∷ (78
                                            ∷ (86
                                                ∷ (95
                                                    ∷ (82
                                                        ∷ (69
                                                            ∷ (83
                                                            ∷ (80
                                                            ∷ (79
                                                            ∷ (78
                                                            ∷ (83
                                                            ∷ (69
                                                            ∷ (95
                                                            ∷ (95
                                                            ∷ (64 ∷ (61 ∷ []))))))))))))))))))))))))

-- The strings that are passed in place of a big environment, with the name of the file behind them.
abbrev pub passed_env : List Str → Str → List Str
passed_env strs file = (split_env 1 strs).0 ++ ((rsp_env_file_key ++ (at_sign ∷ file)) ∷ [])

-- The errors that tell of something too big.
abbrev pub too_big : Errno → Bool
too_big einval = true
too_big e2big = true
too_big e = false

-- `spawn_add_rsp_temp`, where there is a file.
unfoldable pub spawn_add_rsp_temp : ℕ → Option Str → List RspTemp → List RspTemp
spawn_add_rsp_temp pid none temps = temps
spawn_add_rsp_temp pid (some name) temps = record { pid = pid; name = name } ∷ temps

abbrev pub add_files : ℕ → RspFiles → List RspTemp → List RspTemp
add_files pid files temps =
    spawn_add_rsp_temp pid files.env_file (spawn_add_rsp_temp pid files.arg_file temps)

-- What is added before the spawn.
unfoldable pub add_before : SpawnKind → RspFiles → List RspTemp → List RspTemp
unfolding spawn_add_rsp_temp
add_before p_overlay files temps = add_files 0 files temps
add_before p_wait files temps = temps
add_before other_kind files temps = temps

module _ (os : Os) where
  open os use {World, std_spawnve, mkstemp, write, close, remove, environ, path2, skips_libc}

  -- The writes of a loop, in order: each string and then a line feed.
  unfoldable pub write_strs : World → Str → List Str → World
  write_strs w file [] = w
  write_strs w file (s ∷ ss) = write_strs (write (write w file s) file newline) file ss

  -- The response file of the strings, from its first write to its `close`.
  unfoldable pub write_rsp_file : World → Str → List Str → World
  unfolding write_strs
  write_rsp_file w file ss = close (write_strs w file ss) file

  -- The response file of the environment: the loop parts the strings and writes the ones that do
  -- not stay; `split_env` is the parting.
  unfoldable pub write_env : World → Str → List Str → World
  unfolding write_rsp_file split_env
  write_env w file strs = write_rsp_file w file (split_env 1 strs).1

  abbrev pub remove_if : Option Str → World → World
  remove_if none w = w
  remove_if (some name) w = remove w name

  abbrev pub remove_files : RspFiles → World → World
  remove_files files w = remove_if files.env_file (remove_if files.arg_file w)

  -- What follows the spawn: the files are remembered, or removed.
  unfoldable pub after_spawn :
      SpawnKind → RspFiles → Spawner World → World × Result ℕ → Spawner World × Result ℕ
  unfolding spawn_add_rsp_temp
  after_spawn kind files s (w, fail e) = (record s { world = remove_files files w }, fail e)
  after_spawn p_wait files s (w, ok rc) = (record s { world = remove_files files w }, ok rc)
  after_spawn p_overlay files s (w, ok rc) =
      (record s { world = w; rsp_temps = add_files rc files s.rsp_temps }, ok rc)
  after_spawn other_kind files s (w, ok rc) =
      (record s { world = w; rsp_temps = add_files rc files s.rsp_temps }, ok rc)

  -- The spawn, with what its strings have become.
  unfoldable pub spawn_files :
      SpawnKind
      → Str
      → List Str
      → Option (List Str)
      → RspFiles
      → Spawner World
      → Spawner World × Result ℕ
  unfolding after_spawn add_before
  spawn_files kind name argv envp files s =
      let t = record s { rsp_temps = add_before kind files s.rsp_temps } in
      after_spawn kind files t (std_spawnve t.world kind name argv envp)

  -- The environment goes to the file that `mkstemp` has made.
  unfoldable pub env_made :
      SpawnKind
      → Str
      → List Str
      → List Str
      → Option Str
      → Spawner World
      → World × Result Str
      → Spawner World × Result ℕ
  unfolding spawn_files split_env write_env
  env_made kind name argv strs arg_file s (w, fail e) =
      (record s { world = remove_if arg_file w }, fail e)
  env_made kind name argv strs arg_file s (w, ok file) =
      spawn_files kind name argv (some (passed_env strs file))
        (record { arg_file = arg_file; env_file = some file })
        (record s { world = write_env w file strs })

  abbrev pub strings_of : World → Option (List Str) → List Str
  strings_of w none = environ w
  strings_of w (some envp) = envp

  -- The block on the environment.
  unfoldable pub spawn_env :
      SpawnKind
      → Str
      → List Str
      → Option (List Str)
      → Option Str
      → Spawner World
      → Spawner World × Result ℕ
  unfolding env_made size_from
  spawn_env kind name argv envp arg_file s =
      let strs = strings_of s.world envp in
      if ltb env_size_max (size_from 1 strs)
      then env_made kind name argv strs arg_file s (mkstemp s.world env_rsp)
      else spawn_files kind name argv envp (record { arg_file = arg_file; env_file = none }) s

  -- The arguments go to the file that `mkstemp` has made.
  unfoldable pub args_made :
      SpawnKind
      → Str
      → Str
      → List Str
      → Option (List Str)
      → Spawner World
      → World × Result Str
      → Spawner World × Result ℕ
  unfolding spawn_env write_rsp_file
  args_made kind name program args envp s (w, fail e) = (record s { world = w }, fail e)
  args_made kind name program args envp s (w, ok file) =
      spawn_env kind name (program ∷ ((at_sign ∷ file) ∷ [])) envp (some file)
        (record s { world = write_rsp_file w file args })

  -- The block on the arguments.
  unfoldable pub spawn_args :
      SpawnKind
      → Str
      → Str
      → List Str
      → Option (List Str)
      → Spawner World
      → Spawner World × Result ℕ
  unfolding args_made
  spawn_args kind name program args envp s =
      if ltb arg_size_max (size_from 1 (program ∷ args))
      then args_made kind name program args envp s (mkstemp s.world arg_rsp)
      else spawn_env kind name (program ∷ args) envp none s

  -- The answer of the first try; it is the end unless something is too big.
  unfoldable pub after_try :
      SpawnKind
      → Str
      → Str
      → List Str
      → Option (List Str)
      → Spawner World
      → World × Result ℕ
      → Spawner World × Result ℕ
  unfolding spawn_args
  after_try kind name program args envp s (w, ok rc) = (record s { world = w }, ok rc)
  after_try kind name program args envp s (w, fail e) =
      if too_big e
      then spawn_args kind name program args envp (record s { world = w })
      else (record s { world = w }, fail e)

  abbrev pub skip_now : Spawner World → Bool
  skip_now s = elim s.skip_libc [ none ↦ skips_libc s.world | some b ↦ b ]

  -- `spawnve`
  unfoldable pub spawnve :
      SpawnKind
      → Str
      → Str
      → List Str
      → Option (List Str)
      → Spawner World
      → Spawner World × Result ℕ
  unfolding after_try
  spawnve kind name program args envp s =
      let skip = skip_now s in
      let t = record s { skip_libc = some skip } in
      if skip
      then spawn_args kind name program args envp t
      else after_try kind name program args envp t
          (std_spawnve t.world kind name (program ∷ args) envp)

  -- `spawnv`
  unfoldable pub spawnv :
      SpawnKind → Str → Str → List Str → Spawner World → Spawner World × Result ℕ
  unfolding spawnve
  spawnv kind name program args s = spawnve kind name program args none s

  unfoldable pub spawn_found :
      SpawnKind
      → Str
      → List Str
      → Option (List Str)
      → Spawner World
      → Result Str
      → Spawner World × Result ℕ
  unfolding spawnve
  spawn_found kind program args envp s (fail e) = (s, fail e)
  spawn_found kind program args envp s (ok path) = spawnve kind path program args envp s

  -- `spawnvpe`
  unfoldable pub spawnvpe :
      SpawnKind
      → Str
      → Str
      → List Str
      → Option (List Str)
      → Spawner World
      → Spawner World × Result ℕ
  unfolding spawn_found
  spawnvpe kind name program args envp s = spawn_found kind program args envp s (path2 s.world name)

  -- `spawnvp`
  unfoldable pub spawnvp :
      SpawnKind → Str → Str → List Str → Spawner World → Spawner World × Result ℕ
  unfolding spawnvpe
  spawnvp kind name program args s = spawnvpe kind name program args none s

  -- `execve` and `execvpe`
  unfoldable pub execve :
      Str → Str → List Str → Option (List Str) → Spawner World → Spawner World × Result ℕ
  unfolding spawnve
  execve name program args envp s = spawnve p_overlay name program args envp s

  unfoldable pub execvpe :
      Str → Str → List Str → Option (List Str) → Spawner World → Spawner World × Result ℕ
  unfolding spawnvpe
  execvpe name program args envp s = spawnvpe p_overlay name program args envp s

  -- `spawn_remove_rsp_temp( -1 )`, which takes out and removes every file of the list.
  unfoldable pub remove_temps : List RspTemp → World → World
  remove_temps [] w = w
  remove_temps (t ∷ ts) w = remove_temps ts (remove w t.name)

  -- `spawn_cleanup`, without the call of DosExitList().
  unfoldable pub spawn_cleanup : Spawner World → Spawner World
  unfolding remove_temps
  spawn_cleanup s = record s { world = remove_temps s.rsp_temps s.world; rsp_temps = [] }
