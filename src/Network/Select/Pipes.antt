-- ===== src/Network/Select/Pipes.antt =====
-- network/select.c: the event semaphores of named pipes.
use os2compat.Prelude.{
  ℕ, zero, suc, ltb, ◌+◌, if◌then◌else◌, Bool, false, Option, none, some, List, [], ◌∷◌, ◌++◌, pos,
}
use os2compat.System.{enomem, Result, ok, fail}
use os2compat.Network.Poll.{FdSet, fd_set, fd_zero}
use os2compat.Network.Select.{FdSetOp, fdset_read, fdset_write, same_op, SelectParm}
use os2compat.Network.Select.Os.{Os, npss_wspace, npss_rdata, npss_other, PipeSemState}

-- `PIPESEM`
pub record PipeSem : Type 0 where
  pub fd : ℕ
  pub hev : ℕ

module _ (os : Os) where
  open os use {
    World, pipe_name, sem_name, dos_create_event_sem, dos_open_event_sem, dos_close_event_sem,
    dos_set_npipe_sem, dos_query_npipe_sem_state, dos_reset_event_sem, dos_post_event_sem,
    dos_wait_event_sem,
  }

  -- The semaphore is tied to the pipe, or closed.
  unfoldable pub tie_sem : ℕ → FdSetOp → World × Option ℕ → World × Option ℕ
  tie_sem fd op (w, none) = (w, none)
  tie_sem fd op (w, some hev) =
      let (v, tied) = dos_set_npipe_sem w fd hev op in
      if tied then (v, some hev) else (dos_close_event_sem v hev, none)

  -- The semaphore of that name, made or, where that fails, opened.
  unfoldable pub get_sem : List ℕ → World × Option ℕ → World × Option ℕ
  get_sem name (w, some hev) = (w, some hev)
  get_sem name (w, none) = dos_open_event_sem w name

  -- The semaphore of one pipe.
  unfoldable pub init_pipe_sem : FdSetOp → ℕ → World → World × Option ℕ
  unfolding tie_sem get_sem
  init_pipe_sem op fd w =
      let name = sem_name (pipe_name w fd) op in
      tie_sem fd op (get_sem name (dos_create_event_sem w (some name)))

  -- `termpipesems`, from the first on.
  unfoldable pub termpipesems : List PipeSem → World → World
  termpipesems [] w = w
  termpipesems (p ∷ ps) w = termpipesems ps (dos_close_event_sem w p.hev)

  -- `while( n > 0 ) DosCloseEventSem( pipesems[ --n ].hev );`
  unfoldable pub close_back : List PipeSem → World → World
  close_back [] w = w
  close_back (p ∷ ps) w = dos_close_event_sem (close_back ps w) p.hev

  -- What follows the semaphore of the pipe `fd`.
  unfoldable pub keep_sem : ℕ → List PipeSem → World × Option ℕ → World × Result (List PipeSem)
  unfolding close_back
  keep_sem fd sems (w, some hev) = (w, ok (sems ++ (record { fd = fd; hev = hev } ∷ [])))
  keep_sem fd sems (w, none) = (close_back sems w, fail enomem)

  -- One round of `initpipesems`.
  unfoldable pub init_round :
      SelectParm → FdSetOp → ℕ → World × Result (List PipeSem) → World × Result (List PipeSem)
  unfolding init_pipe_sem keep_sem
  init_round parm op fd (w, fail e) = (w, fail e)
  init_round parm op fd (w, ok sems) =
      if parm.fdset op (pos fd) then keep_sem fd sems (init_pipe_sem op fd w) else (w, ok sems)

  -- Its loop after `k` rounds, or at the round that returned.
  unfoldable pub init_rounds : SelectParm → FdSetOp → ℕ → World → World × Result (List PipeSem)
  unfolding init_round
  init_rounds parm op zero w = (w, ok [])
  init_rounds parm op (suc k) w = init_round parm op k (init_rounds parm op k w)

  -- `initpipesems`
  unfoldable pub initpipesems : SelectParm → FdSetOp → World → World × Result (List PipeSem)
  unfolding init_rounds
  initpipesems parm op w = init_rounds parm op (parm.nfds op) w

  -- A state that tells of the operation that its key names.
  unfoldable pub concerns : PipeSemState → Bool
  concerns s = elim s.status [
    | npss_wspace ↦ same_op s.key fdset_write
    | npss_rdata ↦ same_op s.key fdset_read
    | npss_other ↦ false
  ]

  -- The first such state posts the semaphore where something is available.
  unfoldable pub post_first : ℕ → List PipeSemState → World → World
  unfolding concerns
  post_first hev [] w = w
  post_first hev (s ∷ ss) w =
      let rest = post_first hev ss w in
      if concerns s then (if ltb 0 s.avail then dos_post_event_sem w hev else w) else rest

  -- The part of `checkpipesems` under `pending`.
  unfoldable pub refresh_sem : ℕ → World → World
  unfolding post_first
  refresh_sem hev w =
      let (v, states) = dos_query_npipe_sem_state w hev in
      post_first hev states (dos_reset_event_sem v hev)

  -- `checkpipesems` after its loop over `sems`: the number of posted ones, and their descriptors.
  unfoldable pub check_rounds : Bool → List PipeSem → World → ℕ → FdSet → World × ℕ × FdSet
  unfolding refresh_sem
  check_rounds pending [] w n set = (w, n, set)
  check_rounds pending (p ∷ ps) w n set =
      let (v, posted) = dos_wait_event_sem (if pending then refresh_sem p.hev w else w) p.hev in
      check_rounds pending ps v (if posted then n + 1 else n)
        (if posted then fd_set (pos p.fd) set else set)

  -- `checkpipesems`
  unfoldable pub checkpipesems : Bool → List PipeSem → World → World × ℕ × FdSet
  unfolding check_rounds
  checkpipesems pending sems w = check_rounds pending sems w 0 fd_zero
