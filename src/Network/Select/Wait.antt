-- ===== src/Network/Select/Wait.antt =====
-- network/select.c: the part of select() that waits, with USE_SELECT_THREAD.
use os2compat.Prelude.{
  ℕ, zero, suc, ◌+◌, ◌*◌, ◌/◌, ◌%◌, ◌^◌, if◌then◌else◌, is_some, Bool, true, false, ◌&&◌, Option,
  none, some, List, [], ◌∷◌,
}
use os2compat.System.{Errno, eintr, enomem, Result, ok, fail}
use os2compat.Network.Poll.{fd_zero, TimeVal}
use os2compat.Network.Select.{
  st_pipe, st_socket, fdset_read, fdset_write, fdset_except, SelectParm, Parms, set_parm, add_fd,
}
use os2compat.Network.Select.Os.{
  Os, Sets, MuxAdd, added, duplicate_handle, not_added, MuxWait, mux_posted, mux_timeout,
  mux_interrupt, mux_other,
}
use os2compat.Network.Select.Pipes.{PipeSem, checkpipesems}

-- The local variables that the waiting reads: `hev_sock` and `cancelsock` are there if a socket is
-- among the descriptors.
pub record Waiting (W : Type 0) : Type 0 where
  pub world : W
  pub parms : Parms
  pub rpipesems : List PipeSem
  pub wpipesems : List PipeSem
  pub hev_sock : Option ℕ
  pub cancelsock : ℕ

abbrev pub is_empty : List PipeSem → Bool
is_empty [] = true
is_empty (p ∷ ps) = false

-- After the wait: `err`, and whether events are to be merged; `n` is 0 where they are not.
pub record Waited (W : Type 0) : Type 0 where
  pub world : W
  pub parms : Parms
  pub err : Option Errno
  pub events : Bool

abbrev pub nowait : TimeVal
nowait = record { tv_sec = 0; tv_usec = 0 }

-- `ulTimeout`
unfoldable pub milliseconds : Option TimeVal → Option ℕ
milliseconds none = none
milliseconds (some t) = some ((t.tv_sec * 1000 + t.tv_usec / 1000) % 2 ^ 32)

-- `nrpipesems == 0 && nwpipesems == 0`
abbrev pub no_pipes : {W : Type 0} → Waiting W → Bool
no_pipes s = is_empty s.rpipesems && is_empty s.wpipesems

abbrev pub no_fds : SelectParm → SelectParm
no_fds p = record p { fdset = λ o. fd_zero }

-- The descriptor that the code stores with a semaphore to write: that of the read semaphore with
-- the same index, which is not set behind the last one.
abbrev pub user_of : List PipeSem → ℕ
user_of [] = 0
user_of (p ∷ ps) = p.fd

abbrev pub rest_of : List PipeSem → List PipeSem
rest_of [] = []
rest_of (p ∷ ps) = ps

module _ (os : Os) where
  open os use {
    World, dos_wait_event_sem, dos_post_event_sem, dos_create_mux_wait_sem, dos_add_mux_wait_sem,
    dos_wait_mux_wait_sem, dos_close_mux_wait_sem, std_select, interrupted_select, so_cancel,
    begin_thread, dos_wait_thread,
  }

  -- `waitsocks`, on the answer of the runtime's select().
  unfoldable pub socks_answer :
      SelectParm → ℕ → World × Result ℕ × Sets → World × SelectParm × Option Errno
  socks_answer parm hev (w, fail e, sets) =
      (dos_post_event_sem w hev, record parm { fdset = sets }, some e)
  socks_answer parm hev (w, ok zero, sets) = (w, record parm { fdset = sets }, none)
  socks_answer parm hev (w, ok (suc n), sets) =
      (dos_post_event_sem w hev, record parm { fdset = sets }, none)

  -- `waitsocks`
  unfoldable pub waitsocks :
      World → SelectParm → Option TimeVal → ℕ → World × SelectParm × Option Errno
  unfolding socks_answer
  waitsocks w parm timeout hev =
      socks_answer parm hev (std_select w parm.nmaxfds parm.fdset timeout)

  -- The loop that adds the semaphores of pipes; `users` gives what is stored with each.
  unfoldable pub add_pipes : ℕ → List PipeSem → List PipeSem → World → World × Bool
  add_pipes hmux [] users w = (w, true)
  add_pipes hmux (p ∷ ps) users w =
      let (v, rc) = dos_add_mux_wait_sem w hmux p.hev (user_of users) in
      let rest = add_pipes hmux ps (rest_of users) v in
      elim rc [ added ↦ rest | duplicate_handle ↦ (v, false) | not_added ↦ (v, false) ]

  -- Both loops.
  unfoldable pub add_all_pipes : ℕ → Waiting World → World × Bool
  unfolding add_pipes
  add_all_pipes hmux s =
      let (v, good) = add_pipes hmux s.rpipesems s.rpipesems s.world in
      if good then add_pipes hmux s.wpipesems s.rpipesems v else (v, false)

  abbrev pub failed : World → Parms → Errno → Waited World
  failed w parms e = record { world = w; parms = parms; err = some e; events = true }

  -- The pipes, once something is posted and no error is known.
  unfoldable pub check_posted : Waiting World → World → Parms → Waited World
  unfolding checkpipesems
  check_posted s w parms =
      let (v, _, rset) = checkpipesems os false s.rpipesems w in
      let (u, _, wset) = checkpipesems os false s.wpipesems v in
      let p = parms st_pipe in
      let fdset : Sets = λ o. elim o [
        | fdset_read ↦ rset
        | fdset_write ↦ wset
        | fdset_except ↦ p.fdset fdset_except
      ] in
      record {
        world = u;
        parms = set_parm st_pipe (record p { fdset = fdset }) parms;
        err = none;
        events = true;
      }

  unfoldable pub after_socks : Waiting World → World → Parms → Option Errno → Waited World
  unfolding check_posted
  after_socks s w parms (some e) = failed w parms e
  after_socks s w parms none = check_posted s w parms

  -- The thread is cancelled, its sets are cleared, and it is waited for.
  unfoldable pub cancel_socks : Waiting World → World → SelectParm → ℕ → Bool → World × SelectParm
  cancel_socks s w parm hev ended =
      let v = so_cancel w s.cancelsock in
      let cleared = no_fds parm in
      if ended
      then (dos_wait_thread v, cleared)
      else (let (u, sets) = interrupted_select v cleared.fdset in
          (dos_wait_thread (dos_post_event_sem u hev), record parm { fdset = sets }))

  -- The event semaphore of the sockets is posted. `ended` is `wsa.err` if `waitsocks` has ended by
  -- then; a thread that has not ends before `DosWaitThread` does.
  unfoldable pub posted_thread :
      Waiting World → World → Parms → Option TimeVal → Option (Option Errno) → ℕ → Waited World
  unfolding after_socks waitsocks
  posted_thread s w parms timeout (some err) hev = after_socks s (dos_wait_thread w) parms err
  posted_thread s w parms timeout none hev =
      let (u, parm, _) = waitsocks w (parms st_socket) timeout hev in
      after_socks s (dos_wait_thread u) (set_parm st_socket parm parms) none

  -- Something is posted, with sockets.
  unfoldable pub posted_socks :
      Waiting World → World → Parms → Option TimeVal → Option (Option Errno) → ℕ → Waited World
  unfolding posted_thread cancel_socks
  posted_socks s w parms timeout ended hev =
      let (v, posted) = dos_wait_event_sem w hev in
      if posted
      then posted_thread s v parms timeout ended hev
      else (let (u, parm) = cancel_socks s v (parms st_socket) hev (is_some ended) in
          after_socks s u (set_parm st_socket parm parms) none)

  -- `case 0` of the switch, on `hevSock`.
  unfoldable pub on_hev :
      Waiting World
      → World
      → Parms
      → Option TimeVal
      → Option (Option Errno)
      → Option ℕ
      → Waited World
  unfolding after_socks posted_socks
  on_hev s w parms timeout ended none = after_socks s w parms none
  on_hev s w parms timeout ended (some hev) = posted_socks s w parms timeout ended hev

  -- The switch on the answer of the wait.
  unfoldable pub on_answer :
      Waiting World
      → World
      → Parms
      → Option TimeVal
      → Option (Option Errno)
      → MuxWait
      → Waited World
  unfolding on_hev
  on_answer s w parms timeout ended mux_posted = on_hev s w parms timeout ended s.hev_sock
  on_answer s w parms timeout ended mux_timeout = record {
    world = w;
    parms = parms;
    err = none;
    events = false;
  }
  on_answer s w parms timeout ended mux_interrupt = failed w parms eintr
  on_answer s w parms timeout ended mux_other = failed w parms enomem

  unfoldable pub mux_wait :
      Waiting World → ℕ → World → Parms → Option TimeVal → Option (Option Errno) → Waited World
  unfolding on_answer milliseconds
  mux_wait s hmux w parms timeout ended =
      let (v, answer) = dos_wait_mux_wait_sem w hmux (milliseconds timeout) in
      on_answer s v parms timeout ended answer

  -- After `_beginthread`; `early` is that the thread ends before the wait answers.
  unfoldable pub begun :
      Bool → Waiting World → ℕ → Parms → Option TimeVal → ℕ → World × Option Errno → Waited World
  unfolding mux_wait waitsocks
  begun early s hmux parms timeout hev (v, some e) = failed v parms e
  begun false s hmux parms timeout hev (v, none) = mux_wait s hmux v parms timeout none
  begun true s hmux parms timeout hev (v, none) =
      let (u, after, err) = waitsocks v (parms st_socket) timeout hev in
      mux_wait s hmux u (set_parm st_socket after parms) timeout (some err)

  -- `waitsocks` is called, or a thread is begun on it.
  unfoldable pub run_socks :
      Bool → Waiting World → ℕ → World → Parms → Option TimeVal → ℕ → Waited World
  unfolding begun
  run_socks early s hmux w parms timeout hev =
      let parm = add_fd s.cancelsock fdset_read (parms st_socket) in
      let with_cancel = set_parm st_socket parm parms in
      if no_pipes s
      then (let (v, after, err) = waitsocks w parm timeout hev in
          mux_wait s hmux v (set_parm st_socket after with_cancel) (some nowait) (some err))
      else begun early s hmux with_cancel timeout hev (begin_thread w)

  -- The answer of adding the event semaphore of the sockets.
  unfoldable pub sock_added :
      Bool → Waiting World → ℕ → Option TimeVal → ℕ → World × MuxAdd → Waited World
  unfolding run_socks
  sock_added early s hmux timeout hev (w, added) = run_socks early s hmux w s.parms timeout hev
  sock_added early s hmux timeout hev (w, duplicate_handle) =
      run_socks early s hmux w s.parms timeout hev
  sock_added early s hmux timeout hev (w, not_added) = failed w s.parms enomem

  -- The wait, with the event semaphore of the sockets, where there are any.
  unfoldable pub add_socks :
      Bool → Waiting World → ℕ → World → Option TimeVal → Option ℕ → Waited World
  unfolding sock_added
  add_socks early s hmux w timeout none = mux_wait s hmux w s.parms timeout none
  add_socks early s hmux w timeout (some hev) =
      sock_added early s hmux timeout hev (dos_add_mux_wait_sem w hmux hev hev)

  -- Between the making of the multiple wait semaphore and its closing.
  unfoldable pub with_mux : Bool → Waiting World → ℕ → World → Option TimeVal → Waited World
  unfolding add_all_pipes add_socks
  with_mux early s hmux w timeout =
      let (v, good) = add_all_pipes hmux (record s { world = w }) in
      if good then add_socks early s hmux v timeout s.hev_sock else failed v s.parms enomem

  abbrev pub close_mux : ℕ → Waited World → Waited World
  close_mux hmux r = record r { world = dos_close_mux_wait_sem r.world hmux }

  -- The answer of making the multiple wait semaphore.
  unfoldable pub mux_made : Bool → Waiting World → Option TimeVal → World × Option ℕ → Waited World
  unfolding with_mux
  mux_made early s timeout (w, none) = failed w s.parms enomem
  mux_made early s timeout (w, some hmux) = close_mux hmux (with_mux early s hmux w timeout)

  -- The branch of select() that waits.
  unfoldable pub wait_events : Bool → Waiting World → Option TimeVal → Waited World
  unfolding mux_made
  wait_events early s timeout = mux_made early s timeout (dos_create_mux_wait_sem s.world)
