-- ===== src/Network/Select/Origin.antt =====
-- network/select.c: where the descriptors in the sets come from, through the phases and the wait.
use os2compat.Prelude.{
  ℕ, zero, suc, ◌==◌, ◌≡◌, refl, inl, inr, is_some, Bool, true, false, ◌&&◌, Option, none, some,
  pos, Bool-cases, arith,
}
use os2compat.System.{Errno, Result, ok, fail}
use os2compat.Network.Poll.{fd_zero, TimeVal}
use os2compat.Network.Select.{
  st_pipe, st_socket, FdSetOp, fdset_read, fdset_write, fdset_except, same_op, SelectParm, Parms,
  set_parm, add_fd,
}
use os2compat.Network.Select.Os.{
  Os, Sets, MuxWait, mux_posted, mux_timeout, mux_interrupt, mux_other, MuxAdd, added,
  duplicate_handle, not_added,
}
use os2compat.Network.Select.Pipes.{checkpipesems}
use os2compat.Network.Select.Sorted.{add_fd-sets}
use os2compat.Network.Select.Wait.{
  Waiting, nowait, milliseconds, no_pipes, socks_answer, waitsocks, add_all_pipes, check_posted,
  after_socks, cancel_socks, posted_thread, posted_socks, on_hev, on_answer, mux_wait, begun,
  run_socks, sock_added, add_socks, with_mux, mux_made, wait_events,
}
use os2compat.Network.Select.Within.{
  SetLaws, SetsIn, Within, SemsIn, set_parm-Within, both_sets-In, subset-SetsIn, empty-SetsIn,
  checkpipesems-In,
}

module _ (P : FdSetOp → ℕ → Type 0) (os : Os) (laws : SetLaws os) where
  open os use {World}
  open laws use {std_select-subset, interrupted_select-subset}

  -- The sockets' sets after `waitsocks`.
  socks_answer-In :
      (parm : SelectParm) (hev : ℕ) (r : World × Result ℕ × Sets)
      → SetsIn P r.2
      → SetsIn P (socks_answer os parm hev r).1.fdset
  unfolding socks_answer
  socks_answer-In parm hev (w, fail e, sets) all = all
  socks_answer-In parm hev (w, ok zero, sets) all = all
  socks_answer-In parm hev (w, ok (suc n), sets) all = all

  waitsocks-In :
      (w : World) (parm : SelectParm) (timeout : Option TimeVal) (hev : ℕ)
      → SetsIn P parm.fdset
      → SetsIn P (waitsocks os w parm timeout hev).1.fdset
  unfolding waitsocks
  waitsocks-In w parm timeout hev all =
      let r = os.std_select w parm.nmaxfds parm.fdset timeout in
      socks_answer-In parm hev r
        (subset-SetsIn P parm.fdset r.2 (std_select-subset w parm.nmaxfds parm.fdset timeout) all)

  -- The pipes of `s` come from where they may.
  abbrev PipesIn : Waiting World → Type 0
  PipesIn s = SemsIn P fdset_read s.rpipesems × SemsIn P fdset_write s.wpipesems

  check_posted-In :
      (s : Waiting World) (w : World) (parms : Parms)
      → PipesIn s
      → Within P parms
      → Within P (check_posted os s w parms).parms
  unfolding check_posted
  check_posted-In s w parms (rd, wr) all =
      set_parm-Within P st_pipe _ parms
        (both_sets-In P _ _ (parms st_pipe).fdset
          (checkpipesems-In P os false fdset_read s.rpipesems w rd)
          (checkpipesems-In P os false fdset_write s.wpipesems
            (checkpipesems os false s.rpipesems w).0 wr)
          (all st_pipe))
        all

  after_socks-In :
      (s : Waiting World) (w : World) (parms : Parms) (err : Option Errno)
      → PipesIn s
      → Within P parms
      → Within P (after_socks os s w parms err).parms
  unfolding after_socks
  after_socks-In s w parms none pipes all = check_posted-In s w parms pipes all
  after_socks-In s w parms (some e) pipes all = all

  cancel_socks-In :
      (s : Waiting World) (w : World) (parm : SelectParm) (hev : ℕ) (ended : Bool)
      → SetsIn P (cancel_socks os s w parm hev ended).1.fdset
  unfolding cancel_socks
  cancel_socks-In s w parm hev true = empty-SetsIn P
  cancel_socks-In s w parm hev false =
      let v = os.so_cancel w s.cancelsock in
      subset-SetsIn P (λ o. fd_zero) (os.interrupted_select v (λ o. fd_zero)).1
        (interrupted_select-subset v (λ o. fd_zero)) (empty-SetsIn P)

  posted_thread-In :
      (s : Waiting World) (w : World) (parms : Parms) (timeout : Option TimeVal)
      (ended : Option (Option Errno)) (hev : ℕ)
      → PipesIn s
      → Within P parms
      → Within P (posted_thread os s w parms timeout ended hev).parms
  unfolding posted_thread
  posted_thread-In s w parms timeout (some err) hev pipes all =
      after_socks-In s (os.dos_wait_thread w) parms err pipes all
  posted_thread-In s w parms timeout none hev pipes all =
      let (u, parm, _) = waitsocks os w (parms st_socket) timeout hev in
      after_socks-In s (os.dos_wait_thread u) (set_parm st_socket parm parms) none pipes (
        set_parm-Within P st_socket parm parms
          (waitsocks-In w (parms st_socket) timeout hev (all st_socket)) all)

  posted_socks-In :
      (s : Waiting World) (w : World) (parms : Parms) (timeout : Option TimeVal)
      (ended : Option (Option Errno)) (hev : ℕ)
      → PipesIn s
      → Within P parms
      → Within P (posted_socks os s w parms timeout ended hev).parms
  unfolding posted_socks
  posted_socks-In s w parms timeout ended hev pipes all =
      let (v, posted) = os.dos_wait_event_sem w hev in
      elim (Bool-cases posted) [
        | inl e ↦ rw e (posted_thread-In s v parms timeout ended hev pipes all)
        | inr e ↦ rw e (
            let (u, parm) = cancel_socks os s v (parms st_socket) hev (is_some ended) in
            after_socks-In s u (set_parm st_socket parm parms) none pipes (
              set_parm-Within P st_socket parm parms
                (cancel_socks-In s v (parms st_socket) hev (is_some ended)) all))
      ]

  on_hev-In :
      (s : Waiting World) (w : World) (parms : Parms) (timeout : Option TimeVal)
      (ended : Option (Option Errno)) (sock : Option ℕ)
      → PipesIn s
      → Within P parms
      → Within P (on_hev os s w parms timeout ended sock).parms
  unfolding on_hev
  on_hev-In s w parms timeout ended none pipes all = after_socks-In s w parms none pipes all
  on_hev-In s w parms timeout ended (some hev) pipes all =
      posted_socks-In s w parms timeout ended hev pipes all

  on_answer-In :
      (s : Waiting World) (w : World) (parms : Parms) (timeout : Option TimeVal)
      (ended : Option (Option Errno)) (answer : MuxWait)
      → PipesIn s
      → Within P parms
      → Within P (on_answer os s w parms timeout ended answer).parms
  unfolding on_answer
  on_answer-In s w parms timeout ended mux_posted pipes all =
      on_hev-In s w parms timeout ended s.hev_sock pipes all
  on_answer-In s w parms timeout ended mux_timeout pipes all = all
  on_answer-In s w parms timeout ended mux_interrupt pipes all = all
  on_answer-In s w parms timeout ended mux_other pipes all = all

  mux_wait-In :
      (s : Waiting World) (hmux : ℕ) (w : World) (parms : Parms) (timeout : Option TimeVal)
      (ended : Option (Option Errno))
      → PipesIn s
      → Within P parms
      → Within P (mux_wait os s hmux w parms timeout ended).parms
  unfolding mux_wait
  mux_wait-In s hmux w parms timeout ended pipes all =
      let (v, answer) = os.dos_wait_mux_wait_sem w hmux (milliseconds timeout) in
      on_answer-In s v parms timeout ended answer pipes all

  begun-In :
      (early : Bool) (s : Waiting World) (hmux : ℕ) (parms : Parms) (timeout : Option TimeVal)
      (hev : ℕ) (r : World × Option Errno)
      → PipesIn s
      → Within P parms
      → Within P (begun os early s hmux parms timeout hev r).parms
  unfolding begun
  begun-In early s hmux parms timeout hev (v, some e) pipes all = all
  begun-In false s hmux parms timeout hev (v, none) pipes all =
      mux_wait-In s hmux v parms timeout none pipes all
  begun-In true s hmux parms timeout hev (v, none) pipes all =
      let (u, after, err) = waitsocks os v (parms st_socket) timeout hev in
      mux_wait-In s hmux u (set_parm st_socket after parms) timeout (some err) pipes (
        set_parm-Within P st_socket after parms
          (waitsocks-In v (parms st_socket) timeout hev (all st_socket)) all)

  same_op-In : (o op : FdSetOp) (fd : ℕ) → same_op o op ≡ true → P op fd → P o fd
  same_op-In fdset_read fdset_read fd e h = h
  same_op-In fdset_write fdset_write fd e h = h
  same_op-In fdset_except fdset_except fd e h = h
  same_op-In _ _ fd e h = absurd (ground arith)

  add_fd-In :
      (fd : ℕ) (op : FdSetOp) (p : SelectParm)
      → P op fd
      → SetsIn P p.fdset
      → SetsIn P (add_fd fd op p).fdset
  add_fd-In fd op p here all o i mem = elim (Bool-cases (same_op o op && i == fd)) [
    | inl e ↦
        (let same : i ≡ fd = ground arith in
          let op_same : same_op o op ≡ true = ground arith in
          rw same (same_op-In o op fd op_same here))
    | inr e ↦ all o i (ground (arith, add_fd-sets fd op p o (pos i)))
  ]

  run_socks-In :
      (early : Bool) (s : Waiting World) (hmux : ℕ) (w : World) (parms : Parms)
      (timeout : Option TimeVal) (hev : ℕ)
      → P fdset_read s.cancelsock
      → PipesIn s
      → Within P parms
      → Within P (run_socks os early s hmux w parms timeout hev).parms
  unfolding run_socks
  run_socks-In early s hmux w parms timeout hev cancel pipes all =
      let parm = add_fd s.cancelsock fdset_read (parms st_socket) in
      let with_cancel = set_parm st_socket parm parms in
      let in_parm = add_fd-In s.cancelsock fdset_read (parms st_socket) cancel (all st_socket) in
      let in_all = set_parm-Within P st_socket parm parms in_parm all in
      elim (Bool-cases (no_pipes s)) [
        | inl e ↦ rw e (
            let (v, after, err) = waitsocks os w parm timeout hev in
            mux_wait-In s hmux v (set_parm st_socket after with_cancel) (some nowait) (some err)
              pipes
              (set_parm-Within P st_socket after with_cancel
                (waitsocks-In w parm timeout hev in_parm) in_all))
        | inr e ↦
            rw e (begun-In early s hmux with_cancel timeout hev (os.begin_thread w) pipes in_all)
      ]

  sock_added-In :
      (early : Bool) (s : Waiting World) (hmux : ℕ) (timeout : Option TimeVal) (hev : ℕ)
      (r : World × MuxAdd)
      → P fdset_read s.cancelsock
      → PipesIn s
      → Within P s.parms
      → Within P (sock_added os early s hmux timeout hev r).parms
  unfolding sock_added
  sock_added-In early s hmux timeout hev (w, added) cancel pipes all =
      run_socks-In early s hmux w s.parms timeout hev cancel pipes all
  sock_added-In early s hmux timeout hev (w, duplicate_handle) cancel pipes all =
      run_socks-In early s hmux w s.parms timeout hev cancel pipes all
  sock_added-In early s hmux timeout hev (w, not_added) cancel pipes all = all

  add_socks-In :
      (early : Bool) (s : Waiting World) (hmux : ℕ) (w : World) (timeout : Option TimeVal)
      (sock : Option ℕ)
      → (is_some sock ≡ true → P fdset_read s.cancelsock)
      → PipesIn s
      → Within P s.parms
      → Within P (add_socks os early s hmux w timeout sock).parms
  unfolding add_socks
  add_socks-In early s hmux w timeout none cancel pipes all =
      mux_wait-In s hmux w s.parms timeout none pipes all
  add_socks-In early s hmux w timeout (some hev) cancel pipes all =
      sock_added-In early s hmux timeout hev (os.dos_add_mux_wait_sem w hmux hev hev) (cancel refl)
        pipes all

  with_mux-In :
      (early : Bool) (s : Waiting World) (hmux : ℕ) (w : World) (timeout : Option TimeVal)
      → (is_some s.hev_sock ≡ true → P fdset_read s.cancelsock)
      → PipesIn s
      → Within P s.parms
      → Within P (with_mux os early s hmux w timeout).parms
  unfolding with_mux
  with_mux-In early s hmux w timeout cancel pipes all =
      let (v, good) = add_all_pipes os hmux (record s { world = w }) in
      elim (Bool-cases good) [
        | inl e ↦ rw e (add_socks-In early s hmux v timeout s.hev_sock cancel pipes all)
        | inr e ↦ rw e all
      ]

  mux_made-In :
      (early : Bool) (s : Waiting World) (timeout : Option TimeVal) (r : World × Option ℕ)
      → (is_some s.hev_sock ≡ true → P fdset_read s.cancelsock)
      → PipesIn s
      → Within P s.parms
      → Within P (mux_made os early s timeout r).parms
  unfolding mux_made
  mux_made-In early s timeout (w, none) cancel pipes all = all
  mux_made-In early s timeout (w, some hmux) cancel pipes all =
      with_mux-In early s hmux w timeout cancel pipes all

  pub wait_events-In :
      (early : Bool) (s : Waiting World) (timeout : Option TimeVal)
      → (is_some s.hev_sock ≡ true → P fdset_read s.cancelsock)
      → PipesIn s
      → Within P s.parms
      → Within P (wait_events os early s timeout).parms
  unfolding wait_events
  wait_events-In early s timeout cancel pipes all =
      mux_made-In early s timeout (os.dos_create_mux_wait_sem s.world) cancel pipes all
