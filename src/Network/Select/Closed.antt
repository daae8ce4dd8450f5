-- ===== src/Network/Select/Closed.antt =====
-- network/select.c: what select() opens, it closes, on every path.
use os2compat.Prelude.{
  ℕ, zero, suc, ltb, ◌+◌, ◌≡◌, refl, ap, ◌∙◌, inl, inr, if◌then◌else◌, Bool, true, Option, none,
  some, List, [], Bool-cases, arith,
}
use os2compat.System.{Result, ok, fail, Status, Handles}
use os2compat.Network.Poll.{TimeVal}
use os2compat.Network.Select.{
  st_file, st_pipe, st_socket, fdset_read, fdset_write, Parms, Asked, categorize,
}
use os2compat.Network.Select.Os.{Os, Sets}
use os2compat.Network.Select.Laws.{HandleKind, event_sem, socket_fd, made_by, made_fd, HandleLaws}
use os2compat.Network.Select.Pipes.{PipeSem, initpipesems, checkpipesems}
use os2compat.Network.Select.Balance.{sems_count, sems_made, initpipesems-held, checkpipesems-held}
use os2compat.Network.Select.Wait.{nowait}
use os2compat.Network.Select.Phases.{
  Run, Phase, go_on, clean_up, leave, check_files, check_pipe_sems, init_writes, init_reads,
  check_pipes, socks_pending, make_cancelsock, make_hev_sock, check_sockets, then_sockets,
}
use os2compat.Network.Select.Call.{start, select_parms, none_asked, sleep, select_sorted, select}
use os2compat.Network.Select.Cleanup.{socks_owed, pipes_owed, Kept, after_checks-held}

module _ (os : Os) (laws : HandleLaws os) (k : HandleKind) (x : ℕ) where
  open os use {World}
  open laws use {
    held, dos_create_event_sem-Opens, dos_close_event_sem-Closes, socket-Opens, close-Closes,
    std_select-Keeps, std_sleep-Keeps,
  }

  -- A state before the blocks on pipes and on sockets.
  abbrev Fresh : ℕ → Run World → Type 0
  Fresh n s =
      (held s.world k x ≡ n)
      × (s.rpipesems ≡ [])
      × (s.wpipesems ≡ [])
      × (s.hev_sock ≡ none)
      × (s.cancelsock ≡ none)

  -- A phase that has left the sockets alone.
  abbrev NoSocks : Phase World → Type 0
  NoSocks (go_on s) = (s.hev_sock ≡ none) × (s.cancelsock ≡ none)
  NoSocks (clean_up s e) = Unit {0}
  NoSocks (leave w e) = Unit {0}

  no_socks_owed :
      (s : Run World) → s.hev_sock ≡ none → s.cancelsock ≡ none → socks_owed os laws k x s ≡ 0
  no_socks_owed s h c = rw (h, c) (ground arith)

  pipes_owed-all :
      (s : Run World)
      → ltb 0 (s.parms st_pipe).nmaxfds ≡ true
      → s.hev_sock ≡ none
      → s.cancelsock ≡ none
      → socks_owed os laws k x s + pipes_owed os laws k x s
        ≡ sems_count os laws k x s.rpipesems + sems_count os laws k x s.wpipesems
  pipes_owed-all s b e c = omega (
    arith,
    no_socks_owed s e c,
    ap
        (λ t.
          if t then sems_count os laws k x s.rpipesems + sems_count os laws k x s.wpipesems else 0)
        b,
  )

  check_pipe_sems-Kept :
      (n : ℕ) (s : Run World)
      → ltb 0 (s.parms st_pipe).nmaxfds ≡ true
      → held s.world k x
        ≡ n + sems_count os laws k x s.rpipesems + sems_count os laws k x s.wpipesems
      → s.hev_sock ≡ none
      → s.cancelsock ≡ none
      → Kept os laws k x n (check_pipe_sems os s) × NoSocks (check_pipe_sems os s)
  unfolding check_pipe_sems
  check_pipe_sems-Kept n s b h e c =
      let (v, m, _) = checkpipesems os true s.rpipesems s.world in
      let (u, l, _) = checkpipesems os true s.wpipesems v in
      let same : held u k x ≡ held s.world k x =
        checkpipesems-held os laws k x true s.wpipesems v
        ∙ checkpipesems-held os laws k x true s.rpipesems s.world in
      let owed = pipes_owed-all s b e c in
      elim (Bool-cases (ltb 0 (m + l))) [
        | inl f ↦ rw f (omega arith, (e, c))
        | inr f ↦ rw f (omega arith, (e, c))
      ]

  init_writes-Kept :
      (n : ℕ) (s : Run World) (r : World × Result (List PipeSem))
      → ltb 0 (s.parms st_pipe).nmaxfds ≡ true
      → held r.0 k x ≡ n + sems_count os laws k x s.rpipesems + sems_made os laws k x r.1
      → s.wpipesems ≡ []
      → s.hev_sock ≡ none
      → s.cancelsock ≡ none
      → Kept os laws k x n (init_writes os s r) × NoSocks (init_writes os s r)
  unfolding init_writes
  init_writes-Kept n s (w, fail er) b h nil e c =
      let none_yet : sems_count os laws k x s.wpipesems ≡ 0 = rw nil refl in
      let owed = pipes_owed-all s b e c in (omega arith, tt)
  init_writes-Kept n s (w, ok sems) b h nil e c =
      check_pipe_sems-Kept n (record s { world = w; wpipesems = sems }) b h e c

  init_reads-Kept :
      (n : ℕ) (s : Run World) (r : World × Result (List PipeSem))
      → ltb 0 (s.parms st_pipe).nmaxfds ≡ true
      → held r.0 k x ≡ n + sems_made os laws k x r.1
      → s.wpipesems ≡ []
      → s.hev_sock ≡ none
      → s.cancelsock ≡ none
      → Kept os laws k x n (init_reads os s r) × NoSocks (init_reads os s r)
  unfolding init_reads
  init_reads-Kept n s (w, fail er) b h nil e c = (omega arith, tt)
  init_reads-Kept n s (w, ok sems) b h nil e c =
      init_writes-Kept n (record s { world = w; rpipesems = sems })
        (initpipesems os (s.parms st_pipe) fdset_write w) b
        (omega (arith, initpipesems-held os laws k x (s.parms st_pipe) fdset_write w)) nil e c

  check_pipes-Kept :
      (n : ℕ) (s : Run World)
      → Fresh n s
      → Kept os laws k x n (check_pipes os s) × NoSocks (check_pipes os s)
  unfolding check_pipes
  check_pipes-Kept n s (h, r, nil, e, c) = elim (Bool-cases (ltb 0 (s.parms st_pipe).nmaxfds)) [
    | inl b ↦ rw b (
        init_reads-Kept n s (initpipesems os (s.parms st_pipe) fdset_read s.world) b
          (omega (arith, initpipesems-held os laws k x (s.parms st_pipe) fdset_read s.world)) nil e
          c)
    | inr b ↦ rw b (
        let no_pipes : pipes_owed os laws k x s ≡ 0 = rw b refl in
        let no_socks = no_socks_owed s e c in (omega arith, (e, c)))
  ]

  -- `check_sockets`, where it opens the handles of sockets beyond what is owed for pipes.
  socks_owed-all :
      (s : Run World)
      → ltb 0 (s.parms st_socket).nmaxfds ≡ true
      → socks_owed os laws k x s
        ≡ made_by event_sem s.hev_sock k x + made_by socket_fd s.cancelsock k x
  socks_owed-all s b = rw b refl

  socks_pending-owed :
      (s : Run World) (r : World × Result ℕ × Sets)
      → (held (socks_pending os s r).world k x ≡ held r.0 k x)
        × (socks_owed os laws k x (socks_pending os s r) ≡ socks_owed os laws k x s)
        × (pipes_owed os laws k x (socks_pending os s r) ≡ pipes_owed os laws k x s)
  unfolding socks_pending
  socks_pending-owed s (w, fail e, sets) = (refl, refl, refl)
  socks_pending-owed s (w, ok zero, sets) = (refl, refl, refl)
  socks_pending-owed s (w, ok (suc m), sets) = (refl, refl, refl)

  make_cancelsock-Kept :
      (n : ℕ) (s : Run World) (r : World × Result ℕ)
      → ltb 0 (s.parms st_socket).nmaxfds ≡ true
      → held r.0 k x
        ≡ n + pipes_owed os laws k x s + made_by event_sem s.hev_sock k x + made_fd r.1 k x
      → s.cancelsock ≡ none
      → Kept os laws k x n (make_cancelsock os s r)
  unfolding make_cancelsock
  make_cancelsock-Kept n s (w, fail er) b h c =
      let no_fd : made_by socket_fd s.cancelsock k x ≡ 0 = rw c refl in
      omega (arith, socks_owed-all s b)
  make_cancelsock-Kept n s (w, ok fd) b h c =
      let p = s.parms st_socket in
      let t = record s { world = w; cancelsock = some fd } in
      let (same, socks, pipes) =
        socks_pending-owed t (os.std_select w p.nmaxfds p.fdset (some nowait)) in
      omega (arith, socks_owed-all t b, std_select-Keeps w p.nmaxfds p.fdset (some nowait) k x)

  make_hev_sock-Kept :
      (n : ℕ) (s : Run World) (r : World × Option ℕ)
      → ltb 0 (s.parms st_socket).nmaxfds ≡ true
      → held r.0 k x ≡ n + pipes_owed os laws k x s + made_by event_sem r.1 k x
      → s.hev_sock ≡ none
      → s.cancelsock ≡ none
      → Kept os laws k x n (make_hev_sock os s r)
  unfolding make_hev_sock
  make_hev_sock-Kept n s (w, none) b h e c = omega (arith, no_socks_owed s e c)
  make_hev_sock-Kept n s (w, some hev) b h e c =
      make_cancelsock-Kept n (record s { world = w; hev_sock = some hev }) (os.socket w) b
        (omega (arith, socket-Opens w k x)) c

  check_sockets-Kept :
      (n : ℕ) (s : Run World)
      → held s.world k x ≡ n + socks_owed os laws k x s + pipes_owed os laws k x s
      → s.hev_sock ≡ none
      → s.cancelsock ≡ none
      → Kept os laws k x n (check_sockets os s)
  unfolding check_sockets
  check_sockets-Kept n s h e c = elim (Bool-cases (ltb 0 (s.parms st_socket).nmaxfds)) [
    | inl b ↦ rw b (
        make_hev_sock-Kept n s (os.dos_create_event_sem s.world none) b
          (omega (arith, dos_create_event_sem-Opens s.world none k x, no_socks_owed s e c)) e c)
    | inr b ↦ rw b h
  ]

  then_sockets-Kept :
      (n : ℕ) (p : Phase World)
      → Kept os laws k x n p
      → NoSocks p
      → Kept os laws k x n (then_sockets os p)
  unfolding then_sockets
  then_sockets-Kept n (go_on s) h (e, c) = check_sockets-Kept n s h e c
  then_sockets-Kept n (clean_up s er) h _ = h
  then_sockets-Kept n (leave w er) h _ = h

  check_files-Fresh : (n : ℕ) (s : Run World) → Fresh n s → Fresh n (check_files s)
  unfolding check_files
  check_files-Fresh n s h = elim (Bool-cases (ltb 0 (s.parms st_file).nmaxfds)) [
    | inl b ↦ rw b h
    | inr b ↦ rw b h
  ]

  select_sorted-held :
      (early : Bool) (asked : Asked) (nfds : ℕ) (timeout : Option TimeVal) (w : World)
      (r : Parms × Status)
      → held (select_sorted os early asked nfds timeout w r).0 k x ≡ held w k x
  unfolding select_sorted select_parms
  select_sorted-held early asked nfds timeout w (parms, fail e) = refl
  select_sorted-held early asked nfds timeout w (parms, ok _) =
      let s = check_files (start os w parms) in
      let fresh =
        check_files-Fresh (held w k x) (start os w parms) (refl, refl, refl, refl, refl) in
      let (kept, no_socks) = check_pipes-Kept (held w k x) s fresh in
      after_checks-held os laws k x (held w k x) early asked nfds timeout
        (then_sockets os (check_pipes os s))
        (then_sockets-Kept (held w k x) (check_pipes os s) kept no_socks)

  -- Where the calls open and close what HandleLaws says: whatever fails on the way, and however
  -- the wait and the thread end, select() leaves every event semaphore, multiple wait semaphore
  -- and socket open exactly as often as it was before the call.
  pub select-held :
      (early : Bool) (h : Handles) (nfds : ℕ) (asked : Asked) (timeout : Option TimeVal) (w : World)
      → held (select os early h nfds asked timeout w).0 k x ≡ held w k x
  unfolding select sleep
  select-held early h nfds asked timeout w = elim (Bool-cases (none_asked os asked)) [
    | inl e ↦ rw e (std_sleep-Keeps w timeout k x)
    | inr e ↦
        rw e
          (select_sorted-held early asked nfds timeout w (categorize os.np_end_server h asked nfds))
  ]
