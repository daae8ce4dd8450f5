-- ===== src/Process/Spawn/Listed.antt =====
-- process/spawn.c: the response files that are left after a spawn.
use os2compat.Prelude.{
  ℕ, ltb, ◌+◌, ◌-◌, ◌==◌, ◌≤◌, ◌≡◌, refl, inl, inr, if◌then◌else◌, Bool, true, false, ◌&&◌, Option,
  none, some, List, [], ◌∷◌, Bool-cases, arith,
}
use os2compat.System.{Result, ok, fail}
use os2compat.Process.Spawn.{
  Str, SpawnKind, p_wait, p_overlay, other_kind, RspTemp, RspTemplate, arg_rsp, env_rsp, Os,
  Spawner, RspFiles, arg_size_max, env_size_max, size_from, split_env, too_big, spawn_add_rsp_temp,
  add_files, add_before, remove_if, remove_files, after_spawn, spawn_files, env_made, strings_of,
  newline, write_strs, write_rsp_file, write_env, spawn_env, args_made, spawn_args, after_try,
  skip_now, spawnve,
}

abbrev pub same_str : Str → Str → Bool
same_str [] [] = true
same_str [] (d ∷ ds) = false
same_str (c ∷ cs) [] = false
same_str (c ∷ cs) (d ∷ ds) = c == d && same_str cs ds

-- 1 for the name itself, 0 for every other.
abbrev pub one_of : Str → Str → ℕ
one_of a x = if same_str a x then 1 else 0

abbrev pub made : Result Str → Str → ℕ
made (fail e) x = 0
made (ok a) x = one_of a x

abbrev pub in_option : Option Str → Str → ℕ
in_option none x = 0
in_option (some a) x = one_of a x

abbrev pub in_files : RspFiles → Str → ℕ
in_files files x = in_option files.arg_file x + in_option files.env_file x

-- How often a file is on the list.
abbrev pub listed : List RspTemp → Str → ℕ
listed [] x = 0
listed (t ∷ ts) x = one_of t.name x + listed ts x

-- `files w x` is how many files there are with the name `x`: mkstemp() makes one where it
-- succeeds, remove() takes one away where there is one, and writing and spawning leave the response
-- files as they are.
pub record FileLaws (os : Os) : Type 0 where
  pub files : os.World → Str → ℕ
  pub mkstemp-files :
      (w : os.World) (t : RspTemplate) (x : Str)
      → files (os.mkstemp w t).0 x ≡ files w x + made (os.mkstemp w t).1 x
  pub remove-files :
      (w : os.World) (name x : Str) → files (os.remove w name) x ≡ files w x - one_of name x
  pub write-files :
      (w : os.World) (name bytes x : Str) → files (os.write w name bytes) x ≡ files w x
  pub close-files : (w : os.World) (name x : Str) → files (os.close w name) x ≡ files w x
  pub std_spawnve-files :
      (w : os.World) (kind : SpawnKind) (name : Str) (argv : List Str) (envp : Option (List Str))
      (x : Str)
      → files (os.std_spawnve w kind name argv envp).0 x ≡ files w x

module _ (os : Os) (laws : FileLaws os) (x : Str) where
  open os use {World}
  open laws use {files, mkstemp-files, remove-files, write-files, close-files, std_spawnve-files}

  -- Beyond the `n` files before, a call leaves only files that it has put on the list behind `old`.
  abbrev pub Left : ℕ → List RspTemp → Spawner World × Result ℕ → Type 0
  Left n old r = files r.0.world x + listed old x ≤ n + listed r.0.rsp_temps x

  remove_if-files :
      (a : Option Str) (w : World) → files (remove_if os a w) x ≡ files w x - in_option a x
  remove_if-files none w = omega arith
  remove_if-files (some name) w = remove-files w name x

  remove_files-files :
      (fs : RspFiles) (w : World) → files (remove_files os fs w) x ≡ files w x - in_files fs x
  remove_files-files fs w = omega (
    arith,
    remove_if-files fs.env_file (remove_if os fs.arg_file w),
    remove_if-files fs.arg_file w,
  )

  spawn_add_rsp_temp-listed :
      (pid : ℕ) (a : Option Str) (temps : List RspTemp)
      → listed (spawn_add_rsp_temp pid a temps) x ≡ in_option a x + listed temps x
  unfolding spawn_add_rsp_temp
  spawn_add_rsp_temp-listed pid none temps = omega arith
  spawn_add_rsp_temp-listed pid (some name) temps = refl

  add_files-listed :
      (pid : ℕ) (fs : RspFiles) (temps : List RspTemp)
      → listed (add_files pid fs temps) x ≡ in_files fs x + listed temps x
  add_files-listed pid fs temps = omega (
    arith,
    spawn_add_rsp_temp-listed pid fs.env_file (spawn_add_rsp_temp pid fs.arg_file temps),
    spawn_add_rsp_temp-listed pid fs.arg_file temps,
  )

  add_before-listed :
      (kind : SpawnKind) (fs : RspFiles) (temps : List RspTemp)
      → listed temps x ≤ listed (add_before kind fs temps) x
  unfolding add_before
  add_before-listed p_wait fs temps = omega arith
  add_before-listed p_overlay fs temps = omega (arith, add_files-listed 0 fs temps)
  add_before-listed other_kind fs temps = omega arith

  after_spawn-Left :
      (n : ℕ) (old : List RspTemp) (kind : SpawnKind) (fs : RspFiles) (s : Spawner World)
      (r : World × Result ℕ)
      → files r.0 x ≡ n + in_files fs x
      → listed old x ≤ listed s.rsp_temps x
      → Left n old (after_spawn os kind fs s r)
  unfolding after_spawn
  after_spawn-Left n old kind fs s (w, fail e) h le = omega (arith, remove_files-files fs w)
  after_spawn-Left n old p_wait fs s (w, ok rc) h le = omega (arith, remove_files-files fs w)
  after_spawn-Left n old p_overlay fs s (w, ok rc) h le =
      omega (arith, add_files-listed rc fs s.rsp_temps)
  after_spawn-Left n old other_kind fs s (w, ok rc) h le =
      omega (arith, add_files-listed rc fs s.rsp_temps)

  spawn_files-Left :
      (n : ℕ) (kind : SpawnKind) (name : Str) (argv : List Str) (envp : Option (List Str))
      (fs : RspFiles) (s : Spawner World)
      → files s.world x ≡ n + in_files fs x
      → Left n s.rsp_temps (spawn_files os kind name argv envp fs s)
  unfolding spawn_files
  spawn_files-Left n kind name argv envp fs s h =
      let t : Spawner World = record s { rsp_temps = add_before kind fs s.rsp_temps } in
      after_spawn-Left n s.rsp_temps kind fs t (os.std_spawnve s.world kind name argv envp)
        (omega (arith, std_spawnve-files s.world kind name argv envp x))
        (add_before-listed kind fs s.rsp_temps)

  write_strs-files :
      (w : World) (file : Str) (ss : List Str) → files (write_strs os w file ss) x ≡ files w x
  unfolding write_strs
  write_strs-files w file [] = refl
  write_strs-files w file (s ∷ ss) = omega (
    arith,
    write_strs-files (os.write (os.write w file s) file newline) file ss,
    write-files (os.write w file s) file newline x,
    write-files w file s x,
  )

  write_rsp_file-files :
      (w : World) (file : Str) (ss : List Str) → files (write_rsp_file os w file ss) x ≡ files w x
  unfolding write_rsp_file
  write_rsp_file-files w file ss =
      omega (arith, close-files (write_strs os w file ss) file x, write_strs-files w file ss)

  env_made-Left :
      (n : ℕ) (kind : SpawnKind) (name : Str) (argv strs : List Str) (a : Option Str)
      (s : Spawner World) (r : World × Result Str)
      → files r.0 x ≡ n + in_option a x + made r.1 x
      → Left n s.rsp_temps (env_made os kind name argv strs a s r)
  unfolding env_made write_env
  env_made-Left n kind name argv strs a s (w, fail e) h = omega (arith, remove_if-files a w)
  env_made-Left n kind name argv strs a s (w, ok file) h =
      spawn_files-Left n kind name _ _ (record { arg_file = a; env_file = some file })
        (record s { world = write_env os w file strs })
        (omega (arith, write_rsp_file-files w file (split_env 1 strs).1))

  spawn_env-Left :
      (n : ℕ) (kind : SpawnKind) (name : Str) (argv : List Str) (envp : Option (List Str))
      (a : Option Str) (s : Spawner World)
      → files s.world x ≡ n + in_option a x
      → Left n s.rsp_temps (spawn_env os kind name argv envp a s)
  unfolding spawn_env
  spawn_env-Left n kind name argv envp a s h =
      let strs = strings_of os s.world envp in
      elim (Bool-cases (ltb env_size_max (size_from 1 strs))) [
        | inl e ↦ rw e (
            env_made-Left n kind name argv strs a s (os.mkstemp s.world env_rsp)
              (omega (arith, mkstemp-files s.world env_rsp x)))
        | inr e ↦ rw e (
            spawn_files-Left n kind name argv envp (record { arg_file = a; env_file = none }) s
              (omega arith))
      ]

  args_made-Left :
      (n : ℕ) (kind : SpawnKind) (name program : Str) (args : List Str) (envp : Option (List Str))
      (s : Spawner World) (r : World × Result Str)
      → files r.0 x ≡ n + made r.1 x
      → Left n s.rsp_temps (args_made os kind name program args envp s r)
  unfolding args_made
  args_made-Left n kind name program args envp s (w, fail e) h = omega arith
  args_made-Left n kind name program args envp s (w, ok file) h =
      spawn_env-Left n kind name _ envp (some file)
        (record s { world = write_rsp_file os w file args })
        (omega (arith, write_rsp_file-files w file args))

  spawn_args-Left :
      (n : ℕ) (kind : SpawnKind) (name program : Str) (args : List Str) (envp : Option (List Str))
      (s : Spawner World)
      → files s.world x ≡ n
      → Left n s.rsp_temps (spawn_args os kind name program args envp s)
  unfolding spawn_args
  spawn_args-Left n kind name program args envp s h =
      elim (Bool-cases (ltb arg_size_max (size_from 1 (program ∷ args)))) [
        | inl e ↦ rw e (
            args_made-Left n kind name program args envp s (os.mkstemp s.world arg_rsp)
              (omega (arith, mkstemp-files s.world arg_rsp x)))
        | inr e ↦ rw e (spawn_env-Left n kind name (program ∷ args) envp none s (omega arith))
      ]

  after_try-Left :
      (n : ℕ) (kind : SpawnKind) (name program : Str) (args : List Str) (envp : Option (List Str))
      (s : Spawner World) (r : World × Result ℕ)
      → files r.0 x ≡ n
      → Left n s.rsp_temps (after_try os kind name program args envp s r)
  unfolding after_try
  after_try-Left n kind name program args envp s (w, ok rc) h = omega arith
  after_try-Left n kind name program args envp s (w, fail e) h = elim (Bool-cases (too_big e)) [
    | inl f ↦ rw f (spawn_args-Left n kind name program args envp (record s { world = w }) h)
    | inr f ↦ rw f (omega arith)
  ]

  -- Where the calls make and remove files as FileLaws says: whatever fails, and whether or not the
  -- spawn waits for its child, spawnve() leaves no response file behind but those that it has put
  -- on the list of files to remove: there are at most as many files of a name more than before as
  -- there are entries of that name more on the list.
  pub spawnve-Left :
      (kind : SpawnKind) (name program : Str) (args : List Str) (envp : Option (List Str))
      (s : Spawner World)
      → Left (files s.world x) s.rsp_temps (spawnve os kind name program args envp s)
  unfolding spawnve
  spawnve-Left kind name program args envp s = elim (Bool-cases (skip_now os s)) [
    | inl e ↦ rw e (
        spawn_args-Left (files s.world x) kind name program args envp
          (record s { skip_libc = some true }) refl)
    | inr e ↦ rw e (
        after_try-Left (files s.world x) kind name program args envp
          (record s { skip_libc = some false })
          (os.std_spawnve s.world kind name (program ∷ args) envp)
          (std_spawnve-files s.world kind name (program ∷ args) envp x))
  ]
