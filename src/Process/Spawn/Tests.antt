-- ===== src/Process/Spawn/Tests.antt =====
-- process/spawn.c: the theorems on an environment of long strings.
use os2compat.Prelude.{
  true, false, some, ◌++◌, ◌-◌, none, ℕ, zero, suc, ◌+◌, ◌*◌, ◌≤◌, ◌<◌, ◌≡◌, refl, List, [], ◌∷◌,
  length, arith,
}
use os2compat.System.{ok}
use os2compat.Process.Response.{File, Runtime}
use os2compat.Process.Response.Env.{drop_prefix, env_key, response_env}
use os2compat.Process.Response.Restore.{
  has_lf, OneLine, NoKey, put_all, lines_of, ContentLaws, response_env-write_env,
}
use os2compat.Process.Spawn.Listed.{one_of, FileLaws, Left, spawnve-Left}
use os2compat.Process.Spawn.{
  passed_env, other_kind, Os, Spawner, spawnve, Str, env_size_max, size_from, split_env, write_env,
}
use os2compat.Process.Spawn.Split.{Interleaved, nothing, left, right, split_env-parted}

abbrev as_of : ℕ → Str
as_of zero = []
as_of (suc n) = 97 ∷ as_of n

length-as_of : (n : ℕ) → length (as_of n) ≡ n
length-as_of zero = refl
length-as_of (suc n) = omega (arith, length-as_of n)

abbrev copies : ℕ → Str → List Str
copies zero s = []
copies (suc n) s = s ∷ copies n s

size_from-copies : (n k : ℕ) → size_from k (copies n (as_of 1900)) ≡ k + n * 1901
unfolding size_from
size_from-copies zero k = omega arith
size_from-copies (suc n) k =
    omega (arith, size_from-copies n (k + (length (as_of 1900) + 1)), length-as_of 1900)

abbrev long_env : List Str
long_env = copies 20 (as_of 1900)

long_env-big : env_size_max < size_from 1 long_env
long_env-big = omega (arith, size_from-copies 20 1)

split_env-parted_example :
    Interleaved (split_env 1 long_env).0 (split_env 1 long_env).1 long_env
    × (size_from 1 (split_env 1 long_env).0 ≤ env_size_max)
    × (length (split_env 1 long_env).0 + 2 ≤ length long_env + 1)
split_env-parted_example = split_env-parted long_env long_env-big

-- A system whose state is how many files of a name there are.
abbrev disk : Os
disk = record {
  World = Str → ℕ;
  std_spawnve = λ w kind name argv envp. (w, ok 5);
  mkstemp = λ w t. (λ x. w x + one_of (98 ∷ []) x, ok (98 ∷ []));
  write = λ w name bytes. w;
  close = λ w name. w;
  remove = λ w name x. w x - one_of name x;
  environ = λ w. long_env;
  path2 = λ w name. ok name;
  skips_libc = λ w. true;
}

abbrev disk_files : FileLaws disk
disk_files = record {
  files = λ w. w;
  mkstemp-files = λ w t x. refl;
  remove-files = λ w name x. refl;
  write-files = λ w name bytes x. refl;
  close-files = λ w name x. refl;
  std_spawnve-files = λ w kind name argv envp x. refl;
}

abbrev idle : Spawner (Str → ℕ)
idle = record { world = λ x. 0; rsp_temps = []; skip_libc = none }

spawnve-Left_example :
    Left disk disk_files (98 ∷ []) 0 [] (spawnve disk other_kind (97 ∷ []) (97 ∷ []) [] none idle)
spawnve-Left_example =
    spawnve-Left disk disk_files (98 ∷ []) other_kind (97 ∷ []) (97 ∷ []) [] none idle

-- A system whose state is the bytes of the one file that there is.
abbrev tape : Os
tape = record {
  World = Str;
  std_spawnve = λ w kind name argv envp. (w, ok 5);
  mkstemp = λ w t. ([], ok (99 ∷ []));
  write = λ w name bytes. w ++ bytes;
  close = λ w name. w;
  remove = λ w name. [];
  environ = λ w. long_env;
  path2 = λ w name. ok name;
  skips_libc = λ w. true;
}

abbrev tape_content : ContentLaws tape
tape_content = record {
  content = λ w name. w;
  write-content = λ w name bytes. refl;
  close-content = λ w name. refl;
}

-- What the file has of the long environment.
abbrev env_bytes : Str
env_bytes = write_env tape [] (99 ∷ []) long_env

abbrev env_file : File
env_file = record { filesize = length env_bytes; lines = lines_of env_bytes; read_error = false }

abbrev reader : Runtime
reader = record { World = ℕ; alloc = λ w. (w + 1, true); fopen = λ name. some env_file }

abbrev push : List Str → Str → List Str
push env s = env ++ (s ∷ [])

has_lf-as_of : (n : ℕ) → has_lf (as_of n) ≡ false
has_lf-as_of zero = refl
has_lf-as_of (suc n) = has_lf-as_of n

filed-OneLine : {xs ys zs : List Str} → Interleaved xs ys zs → OneLine zs → OneLine ys
filed-OneLine nothing one = tt
filed-OneLine (left i) one = filed-OneLine i one.1
filed-OneLine (right i) one = (one.0, filed-OneLine i one.1)

kept-NoKey : {xs ys zs : List Str} → Interleaved xs ys zs → NoKey zs → NoKey xs
kept-NoKey nothing free = tt
kept-NoKey (left i) free = (free.0, kept-NoKey i free.1)
kept-NoKey (right i) free = kept-NoKey i free.1

copies-OneLine : (n : ℕ) (s : Str) → has_lf s ≡ false → OneLine (copies n s)
copies-OneLine zero s h = tt
copies-OneLine (suc n) s h = (h, copies-OneLine n s h)

copies-NoKey : (n : ℕ) (s : Str) → drop_prefix env_key s ≡ none → NoKey (copies n s)
copies-NoKey zero s h = tt
copies-NoKey (suc n) s h = (h, copies-NoKey n s h)

as_of-free : drop_prefix env_key (as_of 1900) ≡ none
unfolding drop_prefix
as_of-free = refl

long_env-parted : Interleaved (split_env 1 long_env).0 (split_env 1 long_env).1 long_env
long_env-parted = (split_env-parted long_env long_env-big).0

response_env-write_env_example :
    Interleaved (split_env 1 long_env).0 (split_env 1 long_env).1 long_env
    × ((u : ℕ) × (response_env reader push 0 (passed_env long_env (99 ∷ []))
          ≡ some (
            u,
            push (put_all push (split_env 1 long_env).1 (passed_env long_env (99 ∷ []))) env_key,
          )))
response_env-write_env_example =
    response_env-write_env reader push (λ w. refl) tape tape_content [] long_env (99 ∷ []) env_file
      0 long_env-big refl refl (record { size = refl; lines = refl; no_error = refl })
      (filed-OneLine long_env-parted (copies-OneLine 20 (as_of 1900) (has_lf-as_of 1900)))
      (kept-NoKey long_env-parted (copies-NoKey 20 (as_of 1900) as_of-free))
