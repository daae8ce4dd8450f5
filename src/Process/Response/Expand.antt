-- ===== src/Process/Response/Expand.antt =====
-- process/_response.c: the arguments that `response_arg` makes.
use os2compat.Prelude.{
  ◌==◌, leb, ◌≡◌, refl, ap, ◌∙◌, inl, inr, if◌then◌else◌, true, false, Option, none, some, List, [],
  ◌∷◌, ◌++◌, length, map, Bool-cases, arith,
}
use os2compat.Process.Response.{
  Text, Arg, File, Runtime, Args, is_response, any_response, file_name, line_arg, and_then,
  allocate, rput, put_lines, put_file, put_arg, put_args, response_arg,
}

append_assoc : (xs ys zs : List (Option Arg)) → (xs ++ ys) ++ zs ≡ xs ++ (ys ++ zs)
append_assoc [] ys zs = refl
append_assoc (x ∷ xs) ys zs = ap (λ r. x ∷ r) (append_assoc xs ys zs)

append_nil : (xs : List (Option Arg)) → xs ≡ xs ++ []
append_nil [] = refl
append_nil (x ∷ xs) = ap (λ r. x ∷ r) (append_nil xs)

module _ (rt : Runtime) where
  open rt use {World, alloc, fopen}

  -- What stands for an argument behind the first.
  abbrev pub lines_of : File → List (Option Arg)
  lines_of f = if f.filesize == 0 then [] else map line_arg f.lines

  abbrev pub opened : Option Arg → Option File → List (Option Arg)
  opened a none = a ∷ []
  opened a (some f) = lines_of f

  abbrev pub replaced : Option Arg → List (Option Arg)
  replaced a = if is_response a then opened a (fopen (file_name a)) else a ∷ []

  abbrev pub expanded : List (Option Arg) → List (Option Arg)
  expanded [] = []
  expanded (a ∷ rest_args) = replaced a ++ expanded rest_args

  -- The step adds `more` to the arguments.
  abbrev Puts : Args World → List (Option Arg) → Option (Args World) → Type 0
  Puts s more none = ⊥
  Puts s more (some t) = t.new_argv ≡ s.new_argv ++ more

  module _ (mem : (w : World) → (alloc w).1 ≡ true)
      (reads : (name : Text) (f : File) → fopen name ≡ some f → f.read_error ≡ false) where
    -- One step after another.
    Puts-then :
        (s : Args World) (a b : List (Option Arg)) (o : Option (Args World))
        (f : Args World → Option (Args World))
        → Puts s a o
        → ((t : Args World) → Puts t b (f t))
        → Puts s (a ++ b) (and_then o f)
    unfolding and_then
    Puts-then s a b none f h k = h
    Puts-then s a b (some t) f h k = moved (f t) (k t)
      where
        moved : (r : Option (Args World)) → Puts t b r → Puts s (a ++ b) r
        moved none p = p
        moved (some u) p = p ∙ (ap (λ x. x ++ b) h ∙ append_assoc s.new_argv a b)

    allocate-Puts : (s : Args World) → Puts s [] (allocate rt s)
    unfolding allocate
    allocate-Puts s = rw (mem s.world) (append_nil s.new_argv)

    rput-Puts : (x : Option Arg) (s : Args World) → Puts s (x ∷ []) (rput rt x s)
    unfolding rput allocate and_then
    rput-Puts x s = elim (Bool-cases (leb s.new_alloc (length s.new_argv))) [
      | inl t ↦ rw (t, mem s.world) refl
      | inr f ↦ rw f refl
    ]

    put_lines-Puts :
        (ls : List Text) (s : Args World) → Puts s (map line_arg ls) (put_lines rt ls s)
    unfolding put_lines
    put_lines-Puts [] s = append_nil s.new_argv
    put_lines-Puts (l ∷ ls) s =
        Puts-then s [] (map line_arg (l ∷ ls)) (allocate rt s) _ (allocate-Puts s) (λ t.
          Puts-then t (line_arg l ∷ []) (map line_arg ls) (rput rt (line_arg l) t) _
            (rput-Puts (line_arg l) t) (put_lines-Puts ls))

    kept-Puts :
        (s t : Args World) (more : List (Option Arg)) (o : Option (Args World))
        → Puts t more o
        → Puts t more (and_then o (λ u. if false then none else some u))
    unfolding and_then
    kept-Puts s t more none p = p
    kept-Puts s t more (some u) p = p

    put_file-Puts :
        (f : File) (s : Args World) → f.read_error ≡ false → Puts s (lines_of f) (put_file rt f s)
    unfolding put_file
    put_file-Puts f s e = elim (Bool-cases (f.filesize == 0)) [
      | inl t ↦ rw t (append_nil s.new_argv)
      | inr n ↦
          rw (n, e)
            (Puts-then s [] (map line_arg f.lines) (allocate rt s) _ (allocate-Puts s) (λ t.
              kept-Puts s t (map line_arg f.lines) (put_lines rt f.lines t)
                (put_lines-Puts f.lines t)))
    ]

    put_opened :
        (a : Option Arg) (s : Args World) (o : Option File)
        → fopen (file_name a) ≡ o
        → Puts s (opened a o) (elim o [ none ↦ rput rt a s | some f ↦ put_file rt f s ])
    put_opened a s none e = rput-Puts a s
    put_opened a s (some f) e = put_file-Puts f s (reads (file_name a) f e)

    put_arg-Puts : (a : Option Arg) (s : Args World) → Puts s (replaced a) (put_arg rt a s)
    unfolding put_arg
    put_arg-Puts a s = elim (Bool-cases (is_response a)) [
      | inl t ↦ rw t (put_opened a s (fopen (file_name a)) refl)
      | inr f ↦ rw f (rput-Puts a s)
    ]

    put_args-Puts :
        (args : List (Option Arg)) (s : Args World) → Puts s (expanded args) (put_args rt args s)
    unfolding put_args
    put_args-Puts [] s = append_nil s.new_argv
    put_args-Puts (a ∷ more) s =
        Puts-then s (replaced a) (expanded more) (put_arg rt a s) _ (put_arg-Puts a s)
          (put_args-Puts more)

    plain_args : (args : List (Option Arg)) → any_response args ≡ false → expanded args ≡ args
    unfolding any_response
    plain_args [] e = refl
    plain_args (a ∷ more) e = elim (Bool-cases (is_response a)) [
      | inl t ↦ absurd (cc (t, e))
      | inr f ↦ rw f (ap (λ r. a ∷ r) (plain_args more (ground arith)))
    ]

    abbrev new_args : Args World → Args World → Option (World × List (Option Arg))
    new_args t u = some (u.world, t.new_argv)

    -- The NULL behind the arguments is put, and not counted.
    closed :
        (t : Args World) (o : Option (Args World))
        → Puts t (none ∷ []) o
        → (v : World) × (and_then o (new_args t) ≡ some (v, t.new_argv))
    unfolding and_then
    closed t none p = absurd p
    closed t (some u) p = (u.world, refl)

    closing : Args World → Option (World × List (Option Arg))
    closing t = and_then (rput rt none t) (new_args t)

    finished :
        (s : Args World) (more : List (Option Arg)) (o : Option (Args World))
        → Puts s more o
        → (v : World) × (and_then o closing ≡ some (v, s.new_argv ++ more))
    unfolding closing and_then
    finished s more none p = absurd p
    finished s more (some t) p =
        let (v, e) = closed t (rput rt none t) (rput-Puts none t) in
        (v, e ∙ ap (λ x. some (v, x)) p)

    started :
        (s : Args World) (program : Option Arg) (args : List (Option Arg)) (o : Option (Args World))
        → s.new_argv ≡ []
        → Puts s (program ∷ []) o
        → (v : World) × (and_then o (λ t. and_then (put_args rt args t) closing)
            ≡ some (v, program ∷ expanded args))
    unfolding and_then
    started s program args none empty p = absurd p
    started s program args (some t) empty p =
        let (v, e) = finished t (expanded args) (put_args rt args t) (put_args-Puts args t) in
        let begun : t.new_argv ≡ program ∷ [] = p ∙ ap (λ x. x ++ (program ∷ [])) empty in
        (v, e ∙ ap (λ x. some (v, x ++ expanded args)) begun)

    -- Where memory never runs out and every file that opens can be read, the new arguments are the
    -- name of the program and then, for each other argument, the lines of its file where it is
    -- an unquoted `@file` that opens, and else the argument itself.
    pub response_arg-expanded :
        (w : World) (program : Option Arg) (args : List (Option Arg))
        → (v : World) × (response_arg rt w program args ≡ some (v, program ∷ expanded args))
    unfolding response_arg closing
    response_arg-expanded w program args = elim (Bool-cases (any_response args)) [
      | inl t ↦
          (let start : Args World = record { world = w; new_argv = []; new_alloc = 0 } in
            rw t
              (started start program args (rput rt program start) refl (rput-Puts program start)))
      | inr f ↦ rw (f, plain_args args f) (w, refl)
    ]
