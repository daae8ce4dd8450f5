-- ===== src/Memory/Mmap/Inherit.antt =====
-- memory/mmap.c: what a forked child does with the mappings of its parent.
use os2compat.Prelude.{
  ◌==◌, ◌≡◌, refl, inl, inr, if◌then◌else◌, Bool, true, false, not, ◌&&◌, List, [], ◌∷◌, ◌++◌, ℕ,
  Array, Bool-cases,
}
use os2compat.Memory.Os.{Os, pag_read}
use os2compat.Memory.Mmap.{has, map_shared, map_anon, Mapping}
use os2compat.Memory.Mmap.Object.{set_mem}
use os2compat.Memory.Mmap.Fork.{
  succeeded, ForkOp, fork_op_fork_child, other_fork_op, get_anon_one, get_object, get_shared_one,
  each_mapping, get_anon_mem, get_shared_mem, inherit, fork_child_callback,
}

abbrev pub is_shared_anon : Mapping → Bool
is_shared_anon m = has m.flags map_anon && has m.flags map_shared

abbrev pub is_shared_file : Mapping → Bool
is_shared_file m = has m.flags map_shared && not (has m.flags map_anon)

module _ (os : Os) where
  open os use {World, dos_get_shared_mem}

  -- A step changes the world and tells whether it has succeeded.
  abbrev pub Step : Type 0
  Step = World → World × Bool

  -- Steps in order, up to the first that fails.
  abbrev pub run_steps : List Step → World → World × Bool
  run_steps [] w = (w, true)
  run_steps (f ∷ fs) w = let (v, good) = f w in if good then run_steps fs v else (v, false)

  -- The memory of the parent at the address of the mapping, with the mapping's protection.
  abbrev pub get_anon : Mapping → Step
  get_anon m w =
      let (v, rc) = dos_get_shared_mem w m.addr (pag_read ∷ []) in
      if rc == 0
      then (let (u, r) = set_mem os v m.addr m.len m.prot in (u, succeeded r))
      else (v, false)

  -- The steps for the mappings that pass the test, in their order.
  abbrev pub steps_of : (Mapping → Bool) → (Mapping → Step) → List Mapping → List Step
  steps_of test f [] = []
  steps_of test f (m ∷ ms) = let rest = steps_of test f ms in if test m then f m ∷ rest else rest

  each_mapping-steps :
      (test : Mapping → Bool) (f one : Mapping → Step)
      → ((m : Mapping) (w : World) → one m w ≡ (if test m then f m w else (w, true)))
      → (ms : List Mapping) (w : World)
      → each_mapping os one ms w ≡ run_steps (steps_of test f ms) w
  unfolding each_mapping
  each_mapping-steps test f one same [] w = refl
  each_mapping-steps test f one same (m ∷ ms) w = elim (Bool-cases (test m)) [
    | inl t ↦ rw (same m w, t, each_mapping-steps test f one same ms (f m w).0) refl
    | inr e ↦ rw (same m w, e) (each_mapping-steps test f one same ms w)
  ]

  run_steps-append :
      (fs gs : List Step) (w : World)
      → run_steps (fs ++ gs) w
        ≡ (let (v, good) = run_steps fs w in if good then run_steps gs v else (v, false))
  run_steps-append [] gs w = refl
  run_steps-append (f ∷ fs) gs w = elim (Bool-cases (f w).1) [
    | inl t ↦ rw t (run_steps-append fs gs (f w).0)
    | inr e ↦ rw e refl
  ]

  -- In a forked child the callback gets each anonymous shared mapping of the parent and sets its
  -- protection, and then gets the object of each shared file, in the order of the list and up to
  -- the first failure, which is the failure of the callback; it does nothing for other mappings,
  -- and nothing in any other operation.
  pub fork_child_callback_lem :
      (op : ForkOp) (tmps : Array ℕ) (ms : List Mapping) (w : World)
      → fork_child_callback os op tmps ms w ≡ elim op [
        | fork_op_fork_child ↦
            run_steps
              (steps_of is_shared_anon get_anon ms
                ++ steps_of is_shared_file (get_object os tmps) ms)
              w
        | other_fork_op ↦ (w, true)
      ]
  unfolding fork_child_callback inherit get_anon_mem get_shared_mem get_anon_one get_shared_one
  fork_child_callback_lem other_fork_op tmps ms w = refl
  fork_child_callback_lem fork_op_fork_child tmps ms w =
      let anon = steps_of is_shared_anon get_anon ms in
      let files = steps_of is_shared_file (get_object os tmps) ms in
      let first = each_mapping-steps is_shared_anon get_anon (get_anon_one os) (λ m v. refl) ms w in
      let second =
        each_mapping-steps is_shared_file (get_object os tmps) (get_shared_one os tmps)
          (λ m v. refl) ms (run_steps anon w).0 in
      rw (first, second, run_steps-append anon files w) refl
