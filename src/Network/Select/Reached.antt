-- ===== src/Network/Select/Reached.antt =====
-- network/select.c: what select() reports was asked for.
use os2compat.Prelude.{
  ℕ, zero, suc, ltb, ◌+◌, ◌⊎◌, ◌≡◌, refl, sym, ap, ◌∙◌, inl, inr, is_some, Bool, true, false,
  Option, none, some, List, pos, Bool-cases, arith,
}
use os2compat.System.{Errno, Result, ok, fail, Status, Handles}
use os2compat.Network.Poll.{fd_zero, TimeVal}
use os2compat.Network.Select.{
  st_console, st_file, st_pipe, st_socket, FdSetOp, fdset_read, fdset_write, Parms, Asked, is_asked,
  categorize,
}
use os2compat.Network.Select.Merge.{merge, merge_fds}
use os2compat.Network.Select.Merged.{any_member, merge_fds-sets}
use os2compat.Network.Select.Ready.{is_asked-given_back}
use os2compat.Network.Select.Os.{Os, Sets}
use os2compat.Network.Select.Pipes.{PipeSem, initpipesems, checkpipesems}
use os2compat.Network.Select.Sorted.{is_ok, categorize-sorted}
use os2compat.Network.Select.Wait.{Waited, nowait}
use os2compat.Network.Select.Phases.{
  Run, Phase, go_on, clean_up, leave, Pending, is_pending, is_nowait, clear_others, check_files,
  check_pipe_sems, init_writes, init_reads, check_pipes, socks_pending, make_cancelsock,
  make_hev_sock, check_sockets, then_sockets,
}
use os2compat.Network.Select.Origin.{wait_events-In}
use os2compat.Network.Select.Call.{
  as_waiting, decide, start, outcome, finish, after_checks, select_parms, none_asked, with_sets,
  sleep, select_sorted, select,
}
use os2compat.Network.Select.Within.{
  SetLaws, SetsIn, Within, SemsIn, ResultIn, set_parm-Within, both_sets-In, subset-SetsIn,
  empty-SetsIn, initpipesems-In, checkpipesems-In,
}

-- What is in the sets that come back, where the call succeeds.
abbrev pub AnswerIn : (FdSetOp → ℕ → Type 0) → Result (ℕ × Asked) → Type 0
AnswerIn P (fail e) = Unit {0}
AnswerIn P (ok (n, answer)) = (o : FdSetOp) (i : ℕ) → is_asked answer o (pos i) ≡ true → P o i

-- What the call of socket() answers that the block on sockets makes in this phase: there are
-- sockets to wait for, and the event semaphore has been made.
abbrev pub Makes : (os : Os) → Phase os.World → ℕ → Type 0
Makes os (go_on s) fd =
    (ltb 0 (s.parms st_socket).nmaxfds ≡ true)
    × ((os.socket (os.dos_create_event_sem s.world none).0).1 ≡ ok fd)
Makes os (clean_up s e) fd = ⊥
Makes os (leave w e) fd = ⊥

module _ (P : FdSetOp → ℕ → Type 0) (os : Os) (laws : SetLaws os) where
  open os use {World}
  open laws use {std_select-subset, interrupted_select-subset}

  -- Where there is an event semaphore for sockets, the socket to cancel with is one that may be
  -- reported.
  abbrev Sourced : Run World → Type 0
  Sourced s = is_some s.hev_sock ≡ true → P fdset_read (as_waiting os s).cancelsock

  abbrev RunIn : Run World → Type 0
  RunIn s = Within P s.parms × SemsIn P fdset_read s.rpipesems × SemsIn P fdset_write s.wpipesems

  abbrev PhaseIn : Phase World → Type 0
  PhaseIn (go_on s) = RunIn s × Sourced s
  PhaseIn (clean_up s e) = Unit {0}
  PhaseIn (leave w e) = Unit {0}

  -- Before the block on sockets.
  abbrev PipesPhase : Phase World → Type 0
  PipesPhase (go_on s) = RunIn s × (s.hev_sock ≡ none)
  PipesPhase (clean_up s e) = Unit {0}
  PipesPhase (leave w e) = Unit {0}

  check_pipe_sems-In :
      (s : Run World) → RunIn s → s.hev_sock ≡ none → PipesPhase (check_pipe_sems os s)
  unfolding check_pipe_sems
  check_pipe_sems-In s (all, rd, wr) none_yet =
      let (v, m, rset) = checkpipesems os true s.rpipesems s.world in
      let (u, l, wset) = checkpipesems os true s.wpipesems v in
      elim (Bool-cases (ltb 0 (m + l))) [
        | inl f ↦ rw f (
          (
            set_parm-Within P st_pipe _ s.parms
                (both_sets-In P rset wset (s.parms st_pipe).fdset
                  (checkpipesems-In P os true fdset_read s.rpipesems s.world rd)
                  (checkpipesems-In P os true fdset_write s.wpipesems v wr) (all st_pipe))
                all,
            rd,
            wr,
          ),
          none_yet,
        )
        | inr f ↦ rw f ((all, rd, wr), none_yet)
      ]

  init_writes-In :
      (s : Run World) (r : World × Result (List PipeSem))
      → Within P s.parms
      → SemsIn P fdset_read s.rpipesems
      → ResultIn P os fdset_write r.1
      → s.hev_sock ≡ none
      → PipesPhase (init_writes os s r)
  unfolding init_writes
  init_writes-In s (w, fail e) all rd wr none_yet = tt
  init_writes-In s (w, ok sems) all rd wr none_yet =
      check_pipe_sems-In (record s { world = w; wpipesems = sems }) (all, rd, wr) none_yet

  init_reads-In :
      (s : Run World) (r : World × Result (List PipeSem))
      → Within P s.parms
      → ResultIn P os fdset_read r.1
      → s.hev_sock ≡ none
      → PipesPhase (init_reads os s r)
  unfolding init_reads
  init_reads-In s (w, fail e) all rd none_yet = tt
  init_reads-In s (w, ok sems) all rd none_yet =
      init_writes-In (record s { world = w; rpipesems = sems })
        (initpipesems os (s.parms st_pipe) fdset_write w) all rd
        (initpipesems-In P os (s.parms st_pipe) fdset_write w (all st_pipe fdset_write)) none_yet

  check_pipes-In : (s : Run World) → RunIn s → s.hev_sock ≡ none → PipesPhase (check_pipes os s)
  unfolding check_pipes
  check_pipes-In s (all, rd, wr) none_yet = elim (Bool-cases (ltb 0 (s.parms st_pipe).nmaxfds)) [
    | inl b ↦ rw b (
        init_reads-In s (initpipesems os (s.parms st_pipe) fdset_read s.world) all
          (initpipesems-In P os (s.parms st_pipe) fdset_read s.world (all st_pipe fdset_read))
          none_yet)
    | inr b ↦ rw b ((all, rd, wr), none_yet)
  ]

  socks_pending-In :
      (s : Run World) (r : World × Result ℕ × Sets)
      → RunIn s
      → Sourced s
      → SetsIn P r.2
      → PhaseIn (go_on (socks_pending os s r))
  unfolding socks_pending
  socks_pending-In s (w, fail e, sets) all from in_sets = (all, from)
  socks_pending-In s (w, ok zero, sets) all from in_sets = (all, from)
  socks_pending-In s (w, ok (suc n), sets) (all, rd, wr) from in_sets =
      ((set_parm-Within P st_socket _ s.parms in_sets all, rd, wr), from)

  make_cancelsock-In :
      (s : Run World) (r : World × Result ℕ)
      → RunIn s
      → ((fd : ℕ) → r.1 ≡ ok fd → P fdset_read fd)
      → PhaseIn (make_cancelsock os s r)
  unfolding make_cancelsock
  make_cancelsock-In s (w, fail e) all from = tt
  make_cancelsock-In s (w, ok fd) (all, rd, wr) from =
      let p = s.parms st_socket in
      let r = os.std_select w p.nmaxfds p.fdset (some nowait) in
      socks_pending-In (record s { world = w; cancelsock = some fd }) r (all, rd, wr)
        (λ e. from fd refl)
        (subset-SetsIn P p.fdset r.2 (std_select-subset w p.nmaxfds p.fdset (some nowait))
          (all st_socket))

  make_hev_sock-In :
      (s : Run World) (r : World × Option ℕ)
      → RunIn s
      → ((fd : ℕ) → (os.socket r.0).1 ≡ ok fd → P fdset_read fd)
      → PhaseIn (make_hev_sock os s r)
  unfolding make_hev_sock
  make_hev_sock-In s (w, none) all from = tt
  make_hev_sock-In s (w, some hev) all from =
      make_cancelsock-In (record s { world = w; hev_sock = some hev }) (os.socket w) all from

  no_sock : (s : Run World) → s.hev_sock ≡ none → is_some s.hev_sock ≡ true → ⊥
  no_sock s none_yet e = let h : false ≡ true = sym (ap is_some none_yet) ∙ e in ground arith

  then_sockets-In :
      (p : Phase World)
      → PipesPhase p
      → ((fd : ℕ) → Makes os p fd → P fdset_read fd)
      → PhaseIn (then_sockets os p)
  unfolding then_sockets check_sockets
  then_sockets-In (clean_up s e) h from = tt
  then_sockets-In (leave w e) h from = tt
  then_sockets-In (go_on s) (all, none_yet) from =
      elim (Bool-cases (ltb 0 (s.parms st_socket).nmaxfds)) [
        | inl b ↦ rw b (
            make_hev_sock-In s (os.dos_create_event_sem s.world none) all
              (λ fd made. from fd (b, made)))
        | inr b ↦ rw b (all, λ e. absurd (no_sock s none_yet e))
      ]

  clear_others-Within :
      (pending : Pending) (parms : Parms) → Within P parms → Within P (clear_others pending parms)
  unfolding clear_others
  clear_others-Within pending parms all t = elim (Bool-cases (pending t)) [
    | inl e ↦ rw e (all t)
    | inr e ↦ rw e (empty-SetsIn P)
  ]

  decide-In :
      (early : Bool) (timeout : Option TimeVal) (s : Run World)
      → PhaseIn (go_on s)
      → Within P (decide os early timeout s).parms
  unfolding decide
  decide-In early timeout s ((all, rd, wr), from) = elim (Bool-cases (is_pending s.pending)) [
    | inl e ↦ rw e (clear_others-Within s.pending s.parms all)
    | inr e ↦ rw e (elim (Bool-cases (is_nowait timeout)) [
      | inl f ↦ rw f all
      | inr f ↦ rw f (wait_events-In P os laws early (as_waiting os s) timeout from (rd, wr) all)
    ])
  ]

  any_member-In :
      (asked : Asked) (parms : Parms) (o : FdSetOp) (i : ℕ)
      → Within P parms
      → any_member asked parms o (pos i) ≡ true
      → P o i
  any_member-In asked parms o i all mem = elim (Bool-cases ((parms st_socket).fdset o (pos i))) [
    | inl a ↦ all st_socket o i a
    | inr a ↦ (elim (Bool-cases ((parms st_pipe).fdset o (pos i))) [
      | inl b ↦ all st_pipe o i b
      | inr b ↦ (elim (Bool-cases ((parms st_file).fdset o (pos i))) [
        | inl c ↦ all st_file o i c
        | inr c ↦ all st_console o i (ground arith)
      ])
    ])
  ]

  merge-In :
      (asked : Asked) (nfds : ℕ) (parms : Parms) (events : Bool)
      → Within P parms
      → AnswerIn P (ok (merge asked nfds parms events))
  unfolding merge
  merge-In asked nfds parms false all o i mem = absurd (
      let f = is_asked-given_back (is_some (asked o)) fd_zero (pos i) in
      let g : false ≡ true = ground arith in ground arith)
  merge-In asked nfds parms true all o i mem =
      let m = merge_fds asked parms nfds in
      let given = is_asked-given_back (is_some (asked o)) (m.sets o) (pos i) in
      let sets = merge_fds-sets asked parms nfds o i in
      any_member-In asked parms o i all (ground arith)

  outcome-In :
      (asked : Asked) (nfds : ℕ) (r : Waited World) (err : Option Errno)
      → Within P r.parms
      → AnswerIn P (outcome os asked nfds r err)
  unfolding outcome
  outcome-In asked nfds r none all = merge-In asked nfds r.parms r.events all
  outcome-In asked nfds r (some e) all = tt

  after_checks-In :
      (early : Bool) (asked : Asked) (nfds : ℕ) (timeout : Option TimeVal) (p : Phase World)
      → PhaseIn p
      → AnswerIn P (after_checks os early asked nfds timeout p).1
  unfolding after_checks finish
  after_checks-In early asked nfds timeout (leave w e) h = tt
  after_checks-In early asked nfds timeout (clean_up s e) h = tt
  after_checks-In early asked nfds timeout (go_on s) h =
      let r = decide os early timeout s in
      outcome-In asked nfds r r.err (decide-In early timeout s h)

  check_files-In :
      (s : Run World)
      → RunIn s
      → s.hev_sock ≡ none
      → RunIn (check_files s) × ((check_files s).hev_sock ≡ none)
  unfolding check_files
  check_files-In s all none_yet = elim (Bool-cases (ltb 0 (s.parms st_file).nmaxfds)) [
    | inl b ↦ rw b (all, none_yet)
    | inr b ↦ rw b (all, none_yet)
  ]

  pub select_sorted-In :
      (early : Bool) (asked : Asked) (nfds : ℕ) (timeout : Option TimeVal) (w : World)
      (r : Parms × Status)
      → (is_ok r.1 ≡ true → Within P r.0)
      → ((fd : ℕ) → Makes os (check_pipes os (check_files (start os w r.0))) fd → P fdset_read fd)
      → AnswerIn P (select_sorted os early asked nfds timeout w r).1
  unfolding select_sorted select_parms
  select_sorted-In early asked nfds timeout w (parms, fail e) all from = tt
  select_sorted-In early asked nfds timeout w (parms, ok _) all from =
      let s = check_files (start os w parms) in
      let (run, none_yet) = check_files-In (start os w parms) (all refl, tt, tt) refl in
      after_checks-In early asked nfds timeout (then_sockets os (check_pipes os s))
        (then_sockets-In (check_pipes os s) (check_pipes-In s run none_yet) from)

module _ (os : Os) (laws : SetLaws os) (h : Handles) (nfds : ℕ) (asked : Asked) (w : os.World) where
  open os use {World, np_end_server}

  -- The socket that this call makes for its own use, with its own call of socket().
  abbrev pub IsCancelSock : ℕ → Type 0
  IsCancelSock i =
      let parms = (categorize np_end_server h asked nfds).0 in
      Makes os (check_pipes os (check_files (start os w parms))) i

  abbrev pub AskedFor : FdSetOp → ℕ → Type 0
  AskedFor o i = (is_asked asked o (pos i) ≡ true) ⊎ ((o ≡ fdset_read) × IsCancelSock i)

  sorted-AskedFor :
      is_ok (categorize np_end_server h asked nfds).1 ≡ true
      → Within AskedFor (categorize np_end_server h asked nfds).0
  sorted-AskedFor good t o i mem =
      let is_sorted = categorize-sorted np_end_server h asked nfds good t o i in inl (ground arith)

  with_sets-In : (r : Result ℕ) → AnswerIn AskedFor (with_sets os asked r)
  with_sets-In (fail e) = tt
  with_sets-In (ok n) = λ o i mem. inl mem

  -- Where the runtime's select() only takes descriptors out of its sets: a call that succeeds
  -- reports, for each of the three sets, only descriptors that the caller has in that set; the one
  -- exception is, in the set to read, the one descriptor that the call of socket() answers which
  -- this call makes when sockets are among the descriptors, since select() adds it to that set.
  pub select-asked :
      (early : Bool) (timeout : Option TimeVal)
      → AnswerIn AskedFor (select os early h nfds asked timeout w).1
  unfolding select sleep
  select-asked early timeout = elim (Bool-cases (none_asked os asked)) [
    | inl e ↦ rw e (with_sets-In (os.std_sleep w timeout).1)
    | inr e ↦ rw e (
        select_sorted-In AskedFor os laws early asked nfds timeout w
          (categorize np_end_server h asked nfds) sorted-AskedFor (λ fd made. inr (refl, made)))
  ]
