-- ===== src/Network/Select/Cleanup.antt =====
-- network/select.c: what the label `cleanup` closes.
use os2compat.Prelude.{
  ℕ, ltb, ◌+◌, ◌-◌, ◌≡◌, refl, inl, inr, if◌then◌else◌, Bool, true, false, Option, none, some,
  Bool-cases, arith,
}
use os2compat.Network.Poll.{TimeVal}
use os2compat.Network.Select.{st_pipe, st_socket, Asked}
use os2compat.Network.Select.Os.{Os}
use os2compat.Network.Select.Laws.{HandleKind, event_sem, socket_fd, made_by, HandleLaws}
use os2compat.Network.Select.Pipes.{termpipesems}
use os2compat.Network.Select.Balance.{sems_count, termpipesems-held}
use os2compat.Network.Select.Held.{wait_events-held}
use os2compat.Network.Select.Wait.{Waited}
use os2compat.Network.Select.Phases.{Run, Phase, go_on, clean_up, leave, is_pending, is_nowait}
use os2compat.Network.Select.Call.{
  as_waiting, decide, close_if, close_sem_if, cleanup, finish, after_checks,
}

module _ (os : Os) (laws : HandleLaws os) (k : HandleKind) (x : ℕ) where
  open os use {World}
  open laws use {
    held, dos_create_event_sem-Opens, dos_close_event_sem-Closes, socket-Opens, close-Closes,
    std_select-Keeps, std_sleep-Keeps,
  }

  -- How often the handle is among those that `cleanup` closes.
  abbrev pub socks_owed : Run World → ℕ
  socks_owed s =
      if ltb 0 (s.parms st_socket).nmaxfds
      then made_by event_sem s.hev_sock k x + made_by socket_fd s.cancelsock k x
      else 0

  abbrev pub pipes_owed : Run World → ℕ
  pipes_owed s =
      if ltb 0 (s.parms st_pipe).nmaxfds
      then sems_count os laws k x s.rpipesems + sems_count os laws k x s.wpipesems
      else 0

  -- Beyond the `n` before the call, a phase leaves open what `cleanup` closes; where the function
  -- returns at once, it leaves nothing open.
  abbrev pub Kept : ℕ → Phase World → Type 0
  Kept n (go_on s) = held s.world k x ≡ n + socks_owed s + pipes_owed s
  Kept n (clean_up s e) = held s.world k x ≡ n + socks_owed s + pipes_owed s
  Kept n (leave w e) = held w k x ≡ n

  close_if-held :
      (fd : Option ℕ) (w : World)
      → held (close_if os fd w) k x ≡ held w k x - made_by socket_fd fd k x
  close_if-held none w = omega arith
  close_if-held (some fd) w = close-Closes w fd k x

  close_sem_if-held :
      (hev : Option ℕ) (w : World)
      → held (close_sem_if os hev w) k x ≡ held w k x - made_by event_sem hev k x
  close_sem_if-held none w = omega arith
  close_sem_if-held (some hev) w = dos_close_event_sem-Closes w hev k x

  cleanup_socks-held :
      (b : Bool) (s : Run World) (w : World)
      → held (if b then close_sem_if os s.hev_sock (close_if os s.cancelsock w) else w) k x
        ≡ held w k x
          - (if b then made_by event_sem s.hev_sock k x + made_by socket_fd s.cancelsock k x else 0)
  cleanup_socks-held true s w = omega (
    arith,
    close_sem_if-held s.hev_sock (close_if os s.cancelsock w),
    close_if-held s.cancelsock w,
  )
  cleanup_socks-held false s w = omega arith

  cleanup_pipes-held :
      (b : Bool) (s : Run World) (w : World)
      → held (if b then termpipesems os s.rpipesems (termpipesems os s.wpipesems w) else w) k x
        ≡ held w k x
          - (if b
              then sems_count os laws k x s.rpipesems + sems_count os laws k x s.wpipesems
              else 0)
  cleanup_pipes-held true s w = omega (
    arith,
    termpipesems-held os laws k x s.rpipesems (termpipesems os s.wpipesems w),
    termpipesems-held os laws k x s.wpipesems w,
  )
  cleanup_pipes-held false s w = omega arith

  cleanup-held :
      (s : Run World) (w : World)
      → held (cleanup os s w) k x ≡ held w k x - (socks_owed s + pipes_owed s)
  unfolding cleanup
  cleanup-held s w =
      let socks = ltb 0 (s.parms st_socket).nmaxfds in
      let pipes = ltb 0 (s.parms st_pipe).nmaxfds in
      let v = if socks then close_sem_if os s.hev_sock (close_if os s.cancelsock w) else w in
      omega (arith, cleanup_pipes-held pipes s v, cleanup_socks-held socks s w)

  decide-held :
      (early : Bool) (timeout : Option TimeVal) (s : Run World)
      → held (decide os early timeout s).world k x ≡ held s.world k x
  unfolding decide
  decide-held early timeout s = elim (Bool-cases (is_pending s.pending)) [
    | inl e ↦ rw e refl
    | inr e ↦ rw e (elim (Bool-cases (is_nowait timeout)) [
      | inl f ↦ rw f refl
      | inr f ↦ rw f (wait_events-held os laws k x early (as_waiting os s) timeout)
    ])
  ]

  finish-held :
      (asked : Asked) (nfds : ℕ) (s : Run World) (r : Waited World)
      → held (finish os asked nfds s r).0 k x ≡ held r.world k x - (socks_owed s + pipes_owed s)
  unfolding finish
  finish-held asked nfds s r = cleanup-held s r.world

  pub after_checks-held :
      (n : ℕ) (early : Bool) (asked : Asked) (nfds : ℕ) (timeout : Option TimeVal) (p : Phase World)
      → Kept n p
      → held (after_checks os early asked nfds timeout p).0 k x ≡ n
  unfolding after_checks
  after_checks-held n early asked nfds timeout (leave w e) h = h
  after_checks-held n early asked nfds timeout (clean_up s e) h =
      omega (arith, cleanup-held s s.world)
  after_checks-held n early asked nfds timeout (go_on s) h =
      omega
        (arith, finish-held asked nfds s (decide os early timeout s), decide-held early timeout s)
