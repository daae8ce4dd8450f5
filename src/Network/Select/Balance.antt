-- ===== src/Network/Select/Balance.antt =====
-- network/select.c: the semaphores that the functions on pipes leave open.
use os2compat.Prelude.{
  ℕ, zero, suc, ◌+◌, ◌-◌, ◌≡◌, refl, ◌∙◌, inl, inr, if◌then◌else◌, Bool, true, false, Option, none,
  some, List, [], ◌∷◌, ◌++◌, pos, Bool-cases, arith,
}
use os2compat.System.{Result, ok, fail}
use os2compat.Network.Poll.{FdSet, fd_set}
use os2compat.Network.Select.{FdSetOp, SelectParm}
use os2compat.Network.Select.Os.{Os, PipeSemState}
use os2compat.Network.Select.Laws.{HandleKind, event_sem, one_of, made_by, HandleLaws}
use os2compat.Network.Select.Pipes.{
  PipeSem, tie_sem, get_sem, init_pipe_sem, termpipesems, close_back, keep_sem, init_round,
  init_rounds, initpipesems, post_first, refresh_sem, check_rounds, checkpipesems,
}

module _ (os : Os) (laws : HandleLaws os) (k : HandleKind) (x : ℕ) where
  open os use {World}
  open laws use {
    held, dos_create_event_sem-Opens, dos_open_event_sem-Opens, dos_close_event_sem-Closes,
    dos_set_npipe_sem-Keeps, dos_query_npipe_sem_state-Keeps, dos_reset_event_sem-Keeps,
    dos_post_event_sem-Keeps, dos_wait_event_sem-Keeps,
  }

  -- How often the handle is among those of some semaphores.
  abbrev pub sems_count : List PipeSem → ℕ
  sems_count [] = 0
  sems_count (p ∷ ps) = one_of event_sem p.hev k x + sems_count ps

  abbrev pub sems_made : Result (List PipeSem) → ℕ
  sems_made (fail e) = 0
  sems_made (ok sems) = sems_count sems

  sems_count-++ : (ps qs : List PipeSem) → sems_count (ps ++ qs) ≡ sems_count ps + sems_count qs
  sems_count-++ [] qs = omega arith
  sems_count-++ (p ∷ ps) qs = omega (arith, sems_count-++ ps qs)

  pub termpipesems-held :
      (ps : List PipeSem) (w : World) → held (termpipesems os ps w) k x ≡ held w k x - sems_count ps
  unfolding termpipesems
  termpipesems-held [] w = omega arith
  termpipesems-held (p ∷ ps) w = omega (
    arith,
    termpipesems-held ps (os.dos_close_event_sem w p.hev),
    dos_close_event_sem-Closes w p.hev k x,
  )

  close_back-held :
      (ps : List PipeSem) (w : World) → held (close_back os ps w) k x ≡ held w k x - sems_count ps
  unfolding close_back
  close_back-held [] w = omega arith
  close_back-held (p ∷ ps) w =
      omega (arith, close_back-held ps w, dos_close_event_sem-Closes (close_back os ps w) p.hev k x)

  tie_sem-held :
      (n : ℕ) (fd : ℕ) (op : FdSetOp) (r : World × Option ℕ)
      → held r.0 k x ≡ n + made_by event_sem r.1 k x
      → held (tie_sem os fd op r).0 k x ≡ n + made_by event_sem (tie_sem os fd op r).1 k x
  unfolding tie_sem
  tie_sem-held n fd op (w, none) h = h
  tie_sem-held n fd op (w, some hev) h =
      let (v, tied) = os.dos_set_npipe_sem w fd hev op in
      elim (Bool-cases tied) [
        | inl e ↦ rw e (omega (arith, dos_set_npipe_sem-Keeps w fd hev op k x))
        | inr e ↦ rw e (
            omega (
              arith,
              dos_set_npipe_sem-Keeps w fd hev op k x,
              dos_close_event_sem-Closes v hev k x,
            ))
      ]

  get_sem-held :
      (n : ℕ) (name : List ℕ) (r : World × Option ℕ)
      → held r.0 k x ≡ n + made_by event_sem r.1 k x
      → held (get_sem os name r).0 k x ≡ n + made_by event_sem (get_sem os name r).1 k x
  unfolding get_sem
  get_sem-held n name (w, some hev) h = h
  get_sem-held n name (w, none) h = omega (arith, dos_open_event_sem-Opens w name k x)

  init_pipe_sem-held :
      (op : FdSetOp) (fd : ℕ) (w : World)
      → held (init_pipe_sem os op fd w).0 k x
        ≡ held w k x + made_by event_sem (init_pipe_sem os op fd w).1 k x
  unfolding init_pipe_sem
  init_pipe_sem-held op fd w =
      let name = os.sem_name (os.pipe_name w fd) op in
      let r = os.dos_create_event_sem w (some name) in
      tie_sem-held (held w k x) fd op (get_sem os name r)
        (get_sem-held (held w k x) name r (dos_create_event_sem-Opens w (some name) k x))

  keep_sem-held :
      (n fd : ℕ) (sems : List PipeSem) (r : World × Option ℕ)
      → held r.0 k x ≡ n + sems_count sems + made_by event_sem r.1 k x
      → held (keep_sem os fd sems r).0 k x ≡ n + sems_made (keep_sem os fd sems r).1
  unfolding keep_sem
  keep_sem-held n fd sems (w, some hev) h =
      omega (arith, sems_count-++ sems (record { fd = fd; hev = hev } ∷ []))
  keep_sem-held n fd sems (w, none) h = omega (arith, close_back-held sems w)

  init_round-held :
      (n : ℕ) (parm : SelectParm) (op : FdSetOp) (fd : ℕ) (r : World × Result (List PipeSem))
      → held r.0 k x ≡ n + sems_made r.1
      → held (init_round os parm op fd r).0 k x ≡ n + sems_made (init_round os parm op fd r).1
  unfolding init_round
  init_round-held n parm op fd (w, fail e) h = h
  init_round-held n parm op fd (w, ok sems) h = elim (Bool-cases (parm.fdset op (pos fd))) [
    | inl e ↦ rw e (
        keep_sem-held n fd sems (init_pipe_sem os op fd w)
          (omega (arith, init_pipe_sem-held op fd w)))
    | inr e ↦ rw e h
  ]

  init_rounds-held :
      (parm : SelectParm) (op : FdSetOp) (j : ℕ) (w : World)
      → held (init_rounds os parm op j w).0 k x
        ≡ held w k x + sems_made (init_rounds os parm op j w).1
  unfolding init_rounds
  init_rounds-held parm op zero w = omega arith
  init_rounds-held parm op (suc j) w =
      init_round-held (held w k x) parm op j (init_rounds os parm op j w)
        (init_rounds-held parm op j w)

  pub initpipesems-held :
      (parm : SelectParm) (op : FdSetOp) (w : World)
      → held (initpipesems os parm op w).0 k x
        ≡ held w k x + sems_made (initpipesems os parm op w).1
  unfolding initpipesems
  initpipesems-held parm op w = init_rounds-held parm op (parm.nfds op) w

  post_first-held :
      (hev : ℕ) (states : List PipeSemState) (w : World)
      → held (post_first os hev states w) k x ≡ held w k x
  unfolding post_first
  post_first-held hev [] w = refl
  post_first-held hev (s ∷ ss) w =
      ground (arith, post_first-held hev ss w, dos_post_event_sem-Keeps w hev k x)

  refresh_sem-held : (hev : ℕ) (w : World) → held (refresh_sem os hev w) k x ≡ held w k x
  unfolding refresh_sem
  refresh_sem-held hev w =
      let (v, states) = os.dos_query_npipe_sem_state w hev in
      omega (
        arith,
        post_first-held hev states (os.dos_reset_event_sem v hev),
        dos_reset_event_sem-Keeps v hev k x,
        dos_query_npipe_sem_state-Keeps w hev k x,
      )

  before_wait-held :
      (pending : Bool) (hev : ℕ) (w : World)
      → held (if pending then refresh_sem os hev w else w) k x ≡ held w k x
  before_wait-held true hev w = refresh_sem-held hev w
  before_wait-held false hev w = refl

  check_rounds-held :
      (pending : Bool) (sems : List PipeSem) (w : World) (n : ℕ) (set : FdSet)
      → held (check_rounds os pending sems w n set).0 k x ≡ held w k x
  unfolding check_rounds
  check_rounds-held pending [] w n set = refl
  check_rounds-held pending (p ∷ ps) w n set =
      let v = if pending then refresh_sem os p.hev w else w in
      let (u, posted) = os.dos_wait_event_sem v p.hev in
      check_rounds-held pending ps u (if posted then n + 1 else n)
        (if posted then fd_set (pos p.fd) set else set)
      ∙ (dos_wait_event_sem-Keeps v p.hev k x ∙ before_wait-held pending p.hev w)

  pub checkpipesems-held :
      (pending : Bool) (sems : List PipeSem) (w : World)
      → held (checkpipesems os pending sems w).0 k x ≡ held w k x
  unfolding checkpipesems
  checkpipesems-held pending sems w = check_rounds-held pending sems w 0 (λ i. false)
