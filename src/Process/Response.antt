-- ===== src/Process/Response.antt =====
-- process/_response.c: `response_arg`, which replaces the arguments `@file` by the lines of the
-- file.
pub mod Expand
pub mod Env
pub mod Restore
use os2compat.Prelude.{
  ℕ, zero, suc, ◌+◌, ◌==◌, leb, if◌then◌else◌, Bool, true, false, not, ◌||◌, ◌&&◌, Option, none,
  some, List, [], ◌∷◌, ◌++◌, length,
}

abbrev pub Text : Type 0
Text = List ℕ

-- An argument; `special` is that the byte before it has one of the flags DQUOTE, WILDCARD and
-- SHELL.
pub record Arg : Type 0 where
  pub special : Bool
  pub text : Text

-- An open file: its size, what `fgets` returns until it returns NULL, and `ferror` then.
pub record File : Type 0 where
  pub filesize : ℕ
  pub lines : List Text
  pub read_error : Bool

-- What the code calls of the C runtime; `alloc` is any of malloc(), strdup() and realloc().
pub record Runtime : Type 1 where
  pub World : Type 0
  pub alloc : World → World × Bool
  pub fopen : Text → Option File

-- The local variables; `new_argc` is the length of `new_argv`.
pub record Args (W : Type 0) : Type 0 where
  pub world : W
  pub new_argv : List (Option Arg)
  pub new_alloc : ℕ

-- The line up to its line feed.
unfoldable pub cut_line : Text → Text
cut_line [] = []
cut_line (c ∷ cs) = let rest = cut_line cs in if c == 10 then [] else c ∷ rest

-- `@` begins the text.
unfoldable pub at_sign : Text → Bool
at_sign [] = false
at_sign (c ∷ cs) = c == 64

unfoldable pub is_response : Option Arg → Bool
unfolding at_sign
is_response none = false
is_response (some a) = not a.special && at_sign a.text

-- The search for a first response file.
unfoldable pub any_response : List (Option Arg) → Bool
unfolding is_response
any_response [] = false
any_response (a ∷ rest_args) = is_response a || any_response rest_args

-- The name behind the `@`.
unfoldable pub file_name : Option Arg → Text
file_name none = []
file_name (some a) = elim a.text [ [] ↦ [] | c ∷ cs ↦ cs ]

-- The argument of a line.
unfoldable pub line_arg : Text → Option Arg
unfolding cut_line
line_arg l = some (record { special = false; text = cut_line l })

-- What follows a step; `none` is that the process has ended with the code 255.
unfoldable pub and_then {ℓ} : {A B : Type ℓ} → Option A → (A → Option B) → Option B
and_then none f = none
and_then (some a) f = f a

module _ (rt : Runtime) where
  open rt use {World, alloc, fopen}

  -- An allocation that ends the process where it fails.
  unfoldable pub allocate : Args World → Option (Args World)
  allocate s = let (w, got) = alloc s.world in if got then some (record s { world = w }) else none

  -- RPUT
  unfoldable pub rput : Option Arg → Args World → Option (Args World)
  unfolding allocate and_then
  rput x s =
      let grown =
        if leb s.new_alloc (length s.new_argv)
        then allocate (record s { new_alloc = s.new_alloc + 20 })
        else some s in
      and_then grown (λ t. some (record t { new_argv = t.new_argv ++ (x ∷ []) }))

  -- The loop over the lines of a file.
  unfoldable pub put_lines : List Text → Args World → Option (Args World)
  unfolding rput line_arg
  put_lines [] s = some s
  put_lines (l ∷ ls) s = and_then (allocate s) (λ t. and_then (rput (line_arg l) t) (put_lines ls))

  -- The lines of an open file.
  unfoldable pub put_file : File → Args World → Option (Args World)
  unfolding put_lines
  put_file f s =
      if f.filesize == 0
      then some s
      else and_then (allocate s)
          (λ t. and_then (put_lines f.lines t) (λ u. if f.read_error then none else some u))

  -- An argument behind the first.
  unfoldable pub put_arg : Option Arg → Args World → Option (Args World)
  unfolding put_file is_response file_name
  put_arg a s =
      if is_response a
      then elim (fopen (file_name a)) [ none ↦ rput a s | some f ↦ put_file f s ]
      else rput a s

  unfoldable pub put_args : List (Option Arg) → Args World → Option (Args World)
  unfolding put_arg
  put_args [] s = some s
  put_args (a ∷ rest_args) s = and_then (put_arg a s) (put_args rest_args)

  -- `response_arg` on the name of the program and the other arguments: the new arguments, without
  -- the NULL behind them.
  unfoldable pub response_arg :
      World → Option Arg → List (Option Arg) → Option (World × List (Option Arg))
  unfolding put_args any_response
  response_arg w program args =
      if any_response args
      then and_then (rput program (record { world = w; new_argv = []; new_alloc = 0 })) (λ s.
        and_then (put_args args s) (λ t. and_then (rput none t) (λ u. some (u.world, t.new_argv))))
      else some (w, program ∷ args)
