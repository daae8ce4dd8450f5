-- ===== src/Network/Select/Held.antt =====
-- network/select.c: what select() leaves open while it waits.
use os2compat.Prelude.{
  ℕ, zero, suc, ◌+◌, ◌≡◌, refl, ◌∙◌, inl, inr, is_some, Bool, true, false, Option, none, some, List,
  [], ◌∷◌, Bool-cases, arith,
}
use os2compat.System.{Errno, Result, ok, fail}
use os2compat.Network.Poll.{fd_zero, TimeVal}
use os2compat.Network.Select.{st_socket, fdset_read, add_fd, SelectParm, Parms, set_parm}
use os2compat.Network.Select.Os.{
  Os, Sets, MuxWait, mux_posted, mux_timeout, mux_interrupt, mux_other, MuxAdd, added,
  duplicate_handle, not_added,
}
use os2compat.Network.Select.Laws.{HandleKind, mux_sem, made_by, HandleLaws}
use os2compat.Network.Select.Pipes.{PipeSem, checkpipesems}
use os2compat.Network.Select.Balance.{checkpipesems-held}
use os2compat.Network.Select.Wait.{
  nowait, no_pipes, Waiting, milliseconds, user_of, rest_of, socks_answer, waitsocks, add_pipes,
  add_all_pipes, check_posted, after_socks, cancel_socks, posted_thread, posted_socks, begun,
  on_hev, on_answer, mux_wait, run_socks, sock_added, add_socks, with_mux, mux_made, wait_events,
}

module _ (os : Os) (laws : HandleLaws os) (k : HandleKind) (x : ℕ) where
  open os use {World}
  open laws use {
    held, dos_create_mux_wait_sem-Opens, dos_close_mux_wait_sem-Closes, dos_post_event_sem-Keeps,
    dos_wait_event_sem-Keeps, dos_add_mux_wait_sem-Keeps, dos_wait_mux_wait_sem-Keeps,
    std_select-Keeps, interrupted_select-Keeps, so_cancel-Keeps, begin_thread-Keeps,
    dos_wait_thread-Keeps,
  }

  socks_answer-held :
      (parm : SelectParm) (hev : ℕ) (r : World × Result ℕ × Sets)
      → held (socks_answer os parm hev r).0 k x ≡ held r.0 k x
  unfolding socks_answer
  socks_answer-held parm hev (w, fail e, sets) = dos_post_event_sem-Keeps w hev k x
  socks_answer-held parm hev (w, ok zero, sets) = refl
  socks_answer-held parm hev (w, ok (suc n), sets) = dos_post_event_sem-Keeps w hev k x

  waitsocks-held :
      (w : World) (parm : SelectParm) (timeout : Option TimeVal) (hev : ℕ)
      → held (waitsocks os w parm timeout hev).0 k x ≡ held w k x
  unfolding waitsocks
  waitsocks-held w parm timeout hev =
      socks_answer-held parm hev (os.std_select w parm.nmaxfds parm.fdset timeout)
      ∙ std_select-Keeps w parm.nmaxfds parm.fdset timeout k x

  add_pipes-held :
      (hmux : ℕ) (sems users : List PipeSem) (w : World)
      → held (add_pipes os hmux sems users w).0 k x ≡ held w k x
  unfolding add_pipes
  add_pipes-held hmux [] users w = refl
  add_pipes-held hmux (p ∷ ps) users w =
      let (v, rc) = os.dos_add_mux_wait_sem w hmux p.hev (user_of users) in
      ground (
        arith,
        dos_add_mux_wait_sem-Keeps w hmux p.hev (user_of users) k x,
        add_pipes-held hmux ps (rest_of users) v,
      )

  add_all_pipes-held :
      (hmux : ℕ) (s : Waiting World) → held (add_all_pipes os hmux s).0 k x ≡ held s.world k x
  unfolding add_all_pipes
  add_all_pipes-held hmux s =
      let (v, good) = add_pipes os hmux s.rpipesems s.rpipesems s.world in
      ground (
        arith,
        add_pipes-held hmux s.rpipesems s.rpipesems s.world,
        add_pipes-held hmux s.wpipesems s.rpipesems v,
      )

  check_posted-held :
      (s : Waiting World) (w : World) (parms : Parms)
      → held (check_posted os s w parms).world k x ≡ held w k x
  unfolding check_posted
  check_posted-held s w parms =
      let (v, _, _) = checkpipesems os false s.rpipesems w in
      checkpipesems-held os laws k x false s.wpipesems v
      ∙ checkpipesems-held os laws k x false s.rpipesems w

  after_socks-held :
      (s : Waiting World) (w : World) (parms : Parms) (err : Option Errno)
      → held (after_socks os s w parms err).world k x ≡ held w k x
  unfolding after_socks
  after_socks-held s w parms none = check_posted-held s w parms
  after_socks-held s w parms (some e) = refl

  cancel_socks-held :
      (s : Waiting World) (w : World) (parm : SelectParm) (hev : ℕ) (ended : Bool)
      → held (cancel_socks os s w parm hev ended).0 k x ≡ held w k x
  unfolding cancel_socks
  cancel_socks-held s w parm hev true =
      let v = os.so_cancel w s.cancelsock in
      dos_wait_thread-Keeps v k x ∙ so_cancel-Keeps w s.cancelsock k x
  cancel_socks-held s w parm hev false =
      let v = os.so_cancel w s.cancelsock in
      let u = (os.interrupted_select v (λ o. fd_zero)).0 in
      omega (
        arith,
        dos_wait_thread-Keeps (os.dos_post_event_sem u hev) k x,
        dos_post_event_sem-Keeps u hev k x,
        interrupted_select-Keeps v (λ o. fd_zero) k x,
        so_cancel-Keeps w s.cancelsock k x,
      )

  posted_thread-held :
      (s : Waiting World) (w : World) (parms : Parms) (timeout : Option TimeVal)
      (ended : Option (Option Errno)) (hev : ℕ)
      → held (posted_thread os s w parms timeout ended hev).world k x ≡ held w k x
  unfolding posted_thread
  posted_thread-held s w parms timeout (some err) hev =
      after_socks-held s (os.dos_wait_thread w) parms err ∙ dos_wait_thread-Keeps w k x
  posted_thread-held s w parms timeout none hev =
      let (u, parm, _) = waitsocks os w (parms st_socket) timeout hev in
      omega (
        arith,
        after_socks-held s (os.dos_wait_thread u) (set_parm st_socket parm parms) none,
        dos_wait_thread-Keeps u k x,
        waitsocks-held w (parms st_socket) timeout hev,
      )

  posted_socks-held :
      (s : Waiting World) (w : World) (parms : Parms) (timeout : Option TimeVal)
      (ended : Option (Option Errno)) (hev : ℕ)
      → held (posted_socks os s w parms timeout ended hev).world k x ≡ held w k x
  unfolding posted_socks
  posted_socks-held s w parms timeout ended hev =
      let (v, posted) = os.dos_wait_event_sem w hev in
      elim (Bool-cases posted) [
        | inl e ↦
            rw e
              (posted_thread-held s v parms timeout ended hev ∙ dos_wait_event_sem-Keeps w hev k x)
        | inr e ↦ rw e (
            let (u, parm) = cancel_socks os s v (parms st_socket) hev (is_some ended) in
            omega (
              arith,
              after_socks-held s u (set_parm st_socket parm parms) none,
              cancel_socks-held s v (parms st_socket) hev (is_some ended),
              dos_wait_event_sem-Keeps w hev k x,
            ))
      ]

  on_hev-held :
      (s : Waiting World) (w : World) (parms : Parms) (timeout : Option TimeVal)
      (ended : Option (Option Errno)) (sock : Option ℕ)
      → held (on_hev os s w parms timeout ended sock).world k x ≡ held w k x
  unfolding on_hev
  on_hev-held s w parms timeout ended none = after_socks-held s w parms none
  on_hev-held s w parms timeout ended (some hev) = posted_socks-held s w parms timeout ended hev

  on_answer-held :
      (s : Waiting World) (w : World) (parms : Parms) (timeout : Option TimeVal)
      (ended : Option (Option Errno)) (answer : MuxWait)
      → held (on_answer os s w parms timeout ended answer).world k x ≡ held w k x
  unfolding on_answer
  on_answer-held s w parms timeout ended mux_posted = on_hev-held s w parms timeout ended s.hev_sock
  on_answer-held s w parms timeout ended mux_timeout = refl
  on_answer-held s w parms timeout ended mux_interrupt = refl
  on_answer-held s w parms timeout ended mux_other = refl

  mux_wait-held :
      (s : Waiting World) (hmux : ℕ) (w : World) (parms : Parms) (timeout : Option TimeVal)
      (ended : Option (Option Errno))
      → held (mux_wait os s hmux w parms timeout ended).world k x ≡ held w k x
  unfolding mux_wait
  mux_wait-held s hmux w parms timeout ended =
      let (v, answer) = os.dos_wait_mux_wait_sem w hmux (milliseconds timeout) in
      on_answer-held s v parms timeout ended answer
      ∙ dos_wait_mux_wait_sem-Keeps w hmux (milliseconds timeout) k x

  begun-held :
      (early : Bool) (s : Waiting World) (hmux : ℕ) (parms : Parms) (timeout : Option TimeVal)
      (hev : ℕ) (r : World × Option Errno)
      → held (begun os early s hmux parms timeout hev r).world k x ≡ held r.0 k x
  unfolding begun
  begun-held early s hmux parms timeout hev (v, some e) = refl
  begun-held false s hmux parms timeout hev (v, none) = mux_wait-held s hmux v parms timeout none
  begun-held true s hmux parms timeout hev (v, none) =
      let (u, after, err) = waitsocks os v (parms st_socket) timeout hev in
      mux_wait-held s hmux u (set_parm st_socket after parms) timeout (some err)
      ∙ waitsocks-held v (parms st_socket) timeout hev

  run_socks-held :
      (early : Bool) (s : Waiting World) (hmux : ℕ) (w : World) (parms : Parms)
      (timeout : Option TimeVal) (hev : ℕ)
      → held (run_socks os early s hmux w parms timeout hev).world k x ≡ held w k x
  unfolding run_socks
  run_socks-held early s hmux w parms timeout hev =
      let parm = add_fd s.cancelsock fdset_read (parms st_socket) in
      let with_cancel = set_parm st_socket parm parms in
      elim (Bool-cases (no_pipes s)) [
        | inl e ↦ rw e (
            let (v, after, err) = waitsocks os w parm timeout hev in
            mux_wait-held s hmux v (set_parm st_socket after with_cancel) (some nowait) (some err)
            ∙ waitsocks-held w parm timeout hev)
        | inr e ↦ rw e (
            begun-held early s hmux with_cancel timeout hev (os.begin_thread w)
            ∙ begin_thread-Keeps w k x)
      ]

  sock_added-held :
      (early : Bool) (s : Waiting World) (hmux : ℕ) (timeout : Option TimeVal) (hev : ℕ)
      (r : World × MuxAdd)
      → held (sock_added os early s hmux timeout hev r).world k x ≡ held r.0 k x
  unfolding sock_added
  sock_added-held early s hmux timeout hev (w, added) =
      run_socks-held early s hmux w s.parms timeout hev
  sock_added-held early s hmux timeout hev (w, duplicate_handle) =
      run_socks-held early s hmux w s.parms timeout hev
  sock_added-held early s hmux timeout hev (w, not_added) = refl

  add_socks-held :
      (early : Bool) (s : Waiting World) (hmux : ℕ) (w : World) (timeout : Option TimeVal)
      (sock : Option ℕ)
      → held (add_socks os early s hmux w timeout sock).world k x ≡ held w k x
  unfolding add_socks
  add_socks-held early s hmux w timeout none = mux_wait-held s hmux w s.parms timeout none
  add_socks-held early s hmux w timeout (some hev) =
      sock_added-held early s hmux timeout hev (os.dos_add_mux_wait_sem w hmux hev hev)
      ∙ dos_add_mux_wait_sem-Keeps w hmux hev hev k x

  with_mux-held :
      (early : Bool) (s : Waiting World) (hmux : ℕ) (w : World) (timeout : Option TimeVal)
      → held (with_mux os early s hmux w timeout).world k x ≡ held w k x
  unfolding with_mux
  with_mux-held early s hmux w timeout =
      let (v, good) = add_all_pipes os hmux (record s { world = w }) in
      elim (Bool-cases good) [
        | inl e ↦ rw e (
            add_socks-held early s hmux v timeout s.hev_sock
            ∙ add_all_pipes-held hmux (record s { world = w }))
        | inr e ↦ rw e (add_all_pipes-held hmux (record s { world = w }))
      ]

  mux_made-held :
      (n : ℕ) (early : Bool) (s : Waiting World) (timeout : Option TimeVal) (r : World × Option ℕ)
      → held r.0 k x ≡ n + made_by mux_sem r.1 k x
      → held (mux_made os early s timeout r).world k x ≡ n
  unfolding mux_made
  mux_made-held n early s timeout (w, none) h = omega arith
  mux_made-held n early s timeout (w, some hmux) h =
      let v = (with_mux os early s hmux w timeout).world in
      omega (arith, dos_close_mux_wait_sem-Closes v hmux k x, with_mux-held early s hmux w timeout)

  pub wait_events-held :
      (early : Bool) (s : Waiting World) (timeout : Option TimeVal)
      → held (wait_events os early s timeout).world k x ≡ held s.world k x
  unfolding wait_events
  wait_events-held early s timeout =
      mux_made-held (held s.world k x) early s timeout (os.dos_create_mux_wait_sem s.world)
        (dos_create_mux_wait_sem-Opens s.world k x)
