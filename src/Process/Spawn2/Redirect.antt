-- ===== src/Process/Spawn2/Redirect.antt =====
-- process/spawn2.c: the handles of the child.
use os2compat.Prelude.{
  ℕ, zero, suc, ltb, ◌==◌, ◌≡◌, refl, ap, inl, inr, if◌then◌else◌, is_some, Bool, true, false, not,
  ◌&&◌, Option, none, some, List, [], ◌∷◌, ◌++◌, ℤ, pos, eq_ℤ, Bool-cases, arith,
}
use os2compat.Process.Spawn2.Runtime.{Os, Redir, xredir_fds, SpawnMode, Program}
use os2compat.Process.Spawn2.Child.{
  is_target, has_cloexec, passes_on, inherited, max_handles, spawn_redirs,
}

-- The handle that is `fd` for the child: the first pair with that target.
abbrev pub source_of : ℤ → List Redir → Option ℤ
source_of fd [] = none
source_of fd ((source, target) ∷ rs) =
    let rest = source_of fd rs in if eq_ℤ target fd then some source else rest

abbrev pub or_option : Option ℤ → Option ℤ → Option ℤ
or_option none b = b
or_option (some a) b = some a

source_of-++ :
    (fd : ℤ) (rs ss : List Redir)
    → source_of fd (rs ++ ss) ≡ or_option (source_of fd rs) (source_of fd ss)
source_of-++ fd [] ss = refl
source_of-++ fd ((source, target) ∷ rs) ss = elim (Bool-cases (eq_ℤ target fd)) [
  | inl e ↦ rw e refl
  | inr e ↦ rw e (source_of-++ fd rs ss)
]

is_target-source_of : (fd : ℤ) (rs : List Redir) → is_target fd rs ≡ is_some (source_of fd rs)
unfolding is_target
is_target-source_of fd [] = refl
is_target-source_of fd ((source, target) ∷ rs) = elim (Bool-cases (eq_ℤ target fd)) [
  | inl e ↦ rw e refl
  | inr e ↦ rw e (is_target-source_of fd rs)
]

abbrev pub self_if : Bool → ℕ → Option ℤ
self_if b fd = if b then some (pos fd) else none

no_pair : (k fd : ℕ) (p : ℕ → Bool) → p k ≡ false → (ltb fd k && p fd) ≡ (ltb fd (suc k) && p fd)
no_pair k fd p e = elim (Bool-cases (fd == k)) [
  | inl f ↦ (let same : fd ≡ k = ground arith in rw (same, e) (ground arith))
  | inr f ↦ ground arith
]

or_none : (a : Option ℤ) → or_option a none ≡ a
or_none none = refl
or_none (some a) = refl

-- A handle that is asked for is not passed on besides.
unasked :
    (a : Option ℤ) (below open_fd marked : Bool) (fd : ℕ)
    → or_option a (self_if (below && (open_fd && not marked && not (is_some a))) fd)
      ≡ or_option a (self_if (below && (open_fd && not marked)) fd)
unasked none below open_fd marked fd = ground arith
unasked (some a) below open_fd marked fd = refl

last_pair :
    (k fd : ℕ) (p : ℕ → Bool)
    → p k ≡ true
    → or_option (self_if (ltb fd k && p fd) fd) (source_of (pos fd) ((pos k, pos k) ∷ []))
      ≡ self_if (ltb fd (suc k) && p fd) fd
last_pair k fd p e = elim (Bool-cases (fd == k)) [
  | inl f ↦ (let same : fd ≡ k = ground arith in rw (same, e) (ground arith))
  | inr f ↦
      (let other : eq_ℤ (pos k) (pos fd) ≡ false = ground arith in
        let same : ltb fd (suc k) ≡ ltb fd k = ground arith in
        rw (other, same) (or_none (self_if (ltb fd k && p fd) fd)))
]

module _ (os : Os) (w : os.World) (redirs : List Redir) where
  -- The handle is open, and not to be closed in the child.
  abbrev pub inheritable : ℕ → Bool
  inheritable fd = os.libc_fh w (pos fd) && not (has_cloexec (os.fcntl_getfd w (pos fd)))

  inherited-source_of :
      (k fd : ℕ)
      → source_of (pos fd) (inherited os w redirs k)
        ≡ self_if (ltb fd k && passes_on os w redirs fd) fd
  unfolding inherited
  inherited-source_of zero fd = ground arith
  inherited-source_of (suc k) fd = elim (Bool-cases (passes_on os w redirs k)) [
    | inl e ↦
        rw
          (
            e,
            source_of-++ (pos fd) (inherited os w redirs k) ((pos k, pos k) ∷ []),
            inherited-source_of k fd,
          )
          (last_pair k fd (passes_on os w redirs) e)
    | inr e ↦
        rw (e, inherited-source_of k fd)
          (ap (λ b. self_if b fd) (no_pair k fd (passes_on os w redirs) e))
  ]

  -- What the child's handle refers to: what the caller asks for it, and where the caller asks
  -- nothing, the same handle of the parent, if it is below the limit, open and not to be closed.
  all-source_of :
      (k fd : ℕ)
      → source_of (pos fd) (redirs ++ inherited os w redirs k)
        ≡ or_option (source_of (pos fd) redirs) (self_if (ltb fd k && inheritable fd) fd)
  unfolding passes_on
  all-source_of k fd =
      rw
        (
          source_of-++ (pos fd) redirs (inherited os w redirs k),
          inherited-source_of k fd,
          is_target-source_of (pos fd) redirs,
        )
        (unasked (source_of (pos fd) redirs) (ltb fd k) (os.libc_fh w (pos fd))
          (has_cloexec (os.fcntl_getfd w (pos fd))) fd)

  -- Once its array is there, the spawn calls spawn2() of LIBCx with pairs such that a handle of the
  -- child refers to what the caller asks for it and, where the caller asks nothing, to the same
  -- handle of the parent if that one is below the limit, open and not to be closed on exec (other
  -- handles to nothing); then it frees the array and returns the answer.
  pub spawn_redirs-source_of :
      (f : ℕ) (mode : SpawnMode) (p : Program) (block : ℕ)
      → (all : List Redir) × (spawn_redirs os f mode p redirs (w, some block) ≡ (
        os.free (os.call_spawn2 w f mode p (xredir_fds all)).0 block,
        (os.call_spawn2 w f mode p (xredir_fds all)).1,
      ))
        × ((fd : ℕ)
            → source_of (pos fd) all
              ≡ or_option
                  (source_of (pos fd) redirs)
                  (self_if (ltb fd (max_handles (os.dos_set_rel_max_fh w)) && inheritable fd) fd))
  unfolding spawn_redirs
  spawn_redirs-source_of f mode p block =
      let k = max_handles (os.dos_set_rel_max_fh w) in
      (redirs ++ inherited os w redirs k, refl, λ fd. all-source_of k fd)
