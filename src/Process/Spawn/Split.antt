-- ===== src/Process/Spawn/Split.antt =====
-- process/spawn.c: the environment strings that stay, and those that go to the response file.
use os2compat.Prelude.{
  ℕ, ltb, ◌+◌, ◌≤◌, ◌<◌, ◌≡◌, refl, inl, inr, true, List, [], ◌∷◌, length, Bool-cases, arith,
}
use os2compat.Process.Spawn.{Str, env_size_max, env_str_max, size_from, split_env}

-- `xs` and `ys` are the members of `zs`, in order, each in one of the two.
pub data Interleaved : List Str → List Str → List Str → Type 0 where
  nothing : Interleaved [] [] []
  left : {x : Str} {xs ys zs : List Str} → Interleaved xs ys zs → Interleaved (x ∷ xs) ys (x ∷ zs)
  right : {y : Str} {xs ys zs : List Str} → Interleaved xs ys zs → Interleaved xs (y ∷ ys) (y ∷ zs)

split_env-Interleaved :
    (n : ℕ) (strs : List Str) → Interleaved (split_env n strs).0 (split_env n strs).1 strs
unfolding split_env
split_env-Interleaved n [] = nothing
split_env-Interleaved n (s ∷ ss) = elim (Bool-cases (ltb env_str_max (length s))) [
  | inl a ↦ rw a (right (split_env-Interleaved n ss))
  | inr a ↦ rw a (elim (Bool-cases (ltb env_size_max (n + (length s + 1)))) [
    | inl b ↦ rw b (right (split_env-Interleaved (n + (length s + 1)) ss))
    | inr b ↦ rw b (left (split_env-Interleaved (n + (length s + 1)) ss))
  ])
]

pub Interleaved-length :
    {xs ys zs : List Str} → Interleaved xs ys zs → length zs ≡ length xs + length ys
Interleaved-length nothing = refl
Interleaved-length (left i) = omega (arith, Interleaved-length i)
Interleaved-length (right i) = omega (arith, Interleaved-length i)

-- Once the limit is passed, nothing stays.
split_env-full : (n : ℕ) (strs : List Str) → env_size_max < n → (split_env n strs).0 ≡ []
unfolding split_env
split_env-full n [] full = refl
split_env-full n (s ∷ ss) full = elim (Bool-cases (ltb env_str_max (length s))) [
  | inl a ↦ rw a (split_env-full n ss full)
  | inr a ↦
      (let over : ltb env_size_max (n + (length s + 1)) ≡ true = ground arith in
        rw (a, over) (split_env-full (n + (length s + 1)) ss (omega arith)))
]

split_env-fits :
    (n : ℕ) (strs : List Str) → n ≤ env_size_max → size_from n (split_env n strs).0 ≤ env_size_max
unfolding split_env size_from
split_env-fits n [] le = le
split_env-fits n (s ∷ ss) le = elim (Bool-cases (ltb env_str_max (length s))) [
  | inl a ↦ rw a (split_env-fits n ss le)
  | inr a ↦ rw a (elim (Bool-cases (ltb env_size_max (n + (length s + 1)))) [
    | inl b ↦ rw (b, split_env-full (n + (length s + 1)) ss (ground arith)) le
    | inr b ↦ rw b (split_env-fits (n + (length s + 1)) ss (ground arith))
  ])
]

-- Where all strings together are too big, one at least goes to the file.
split_env-shorter :
    (n : ℕ) (strs : List Str)
    → n ≤ env_size_max
    → env_size_max < size_from n strs
    → length (split_env n strs).0 < length strs
unfolding split_env size_from
split_env-shorter n [] le big = omega arith
split_env-shorter n (s ∷ ss) le big = elim (Bool-cases (ltb env_str_max (length s))) [
  | inl a ↦ rw a (omega (arith, Interleaved-length (split_env-Interleaved n ss)))
  | inr a ↦ rw a (elim (Bool-cases (ltb env_size_max (n + (length s + 1)))) [
    | inl b ↦
        rw b (omega (arith, Interleaved-length (split_env-Interleaved (n + (length s + 1)) ss)))
    | inr b ↦
        rw b
          (let rest = split_env-shorter (n + (length s + 1)) ss (ground arith) big in omega arith)
  ])
]

-- Where the environment is too big, its strings are parted in their order into those that stay and
-- those that go to the response file. The ones that stay are within the limit, and with the name of
-- the file and the closing NULL they are no more than the array of pointers has room for, which is
-- one more than the strings there were.
pub split_env-parted :
    (strs : List Str)
    → env_size_max < size_from 1 strs
    → Interleaved (split_env 1 strs).0 (split_env 1 strs).1 strs
      × (size_from 1 (split_env 1 strs).0 ≤ env_size_max)
      × (length (split_env 1 strs).0 + 2 ≤ length strs + 1)
split_env-parted strs big =
    let small : 1 ≤ env_size_max = omega arith in
    let shorter = split_env-shorter 1 strs small big in
    (split_env-Interleaved 1 strs, split_env-fits 1 strs small, omega arith)
