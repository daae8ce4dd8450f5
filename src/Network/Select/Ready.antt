-- ===== src/Network/Select/Ready.antt =====
-- network/select.c: regular files, which are always ready.
use os2compat.Prelude.{
  ℕ, zero, suc, ltb, ◌+◌, ◌<◌, ◌≡◌, refl, sym, ap, ◌∙◌, inl, inr, if◌then◌else◌, is_some, Bool,
  true, false, ◌&&◌, Option, none, some, List, ℤ, pos, Bool-cases, arith,
}
use os2compat.System.{regular, Result, ok, fail, Status, Handles}
use os2compat.Network.Poll.{FdSet, TimeVal}
use os2compat.Network.Select.{
  st_file, st_pipe, st_socket, FdSetOp, fdset_read, fdset_write, fdset_except, type_of_kind,
  accepts, Parms, Asked, is_asked, categorize,
}
use os2compat.Network.Select.Os.{Os, Sets}
use os2compat.Network.Select.Pipes.{PipeSem, initpipesems, checkpipesems}
use os2compat.Network.Select.Sorted.{is_ok, sorted, type_at, categorize-sorted}
use os2compat.Network.Select.Bounded.{categorize-Bounded}
use os2compat.Network.Select.Merge.{merge, merge_fds}
use os2compat.Network.Select.Merged.{member, merge_fds-sets}
use os2compat.Network.Select.Wait.{nowait}
use os2compat.Network.Select.Phases.{
  Run, Phase, go_on, clean_up, leave, is_pending, clear_others, check_files, check_pipe_sems,
  init_writes, init_reads, check_pipes, socks_pending, make_cancelsock, make_hev_sock,
  check_sockets, then_sockets,
}
use os2compat.Network.Select.Call.{
  decide, finish, outcome, after_checks, start, select_parms, none_asked, select_sorted, select,
}

pub is_asked-given_back :
    (b : Bool) (s : FdSet) (x : ℤ)
    → (elim (if b then some s else none) [ none ↦ false | some t ↦ t x ]) ≡ (b && s x)
is_asked-given_back true s x = refl
is_asked-given_back false s x = refl

-- What is in the sets that come back, where the call succeeds.
abbrev pub Reports : FdSetOp → ℕ → Result (ℕ × Asked) → Type 0
Reports o i (fail e) = Unit {0}
Reports o i (ok (n, answer)) = is_asked answer o (pos i) ≡ true

module _ (os : Os) (parms : Parms) where
  open os use {World}

  -- Regular files are among the descriptors, and are known to be pending.
  abbrev pub Files : Phase World → Type 0
  Files (go_on s) = (s.pending st_file ≡ true) × (s.parms st_file ≡ parms st_file)
  Files (clean_up s e) = Unit {0}
  Files (leave w e) = Unit {0}

  check_pipe_sems-Files : (s : Run World) → Files (go_on s) → Files (check_pipe_sems os s)
  unfolding check_pipe_sems
  check_pipe_sems-Files s h =
      let (v, m, _) = checkpipesems os true s.rpipesems s.world in
      let (u, l, _) = checkpipesems os true s.wpipesems v in
      elim (Bool-cases (ltb 0 (m + l))) [ inl f ↦ rw f h | inr f ↦ rw f h ]

  init_writes-Files :
      (s : Run World) (r : World × Result (List PipeSem))
      → Files (go_on s)
      → Files (init_writes os s r)
  unfolding init_writes
  init_writes-Files s (w, fail e) h = tt
  init_writes-Files s (w, ok sems) h =
      check_pipe_sems-Files (record s { world = w; wpipesems = sems }) h

  init_reads-Files :
      (s : Run World) (r : World × Result (List PipeSem))
      → Files (go_on s)
      → Files (init_reads os s r)
  unfolding init_reads
  init_reads-Files s (w, fail e) h = tt
  init_reads-Files s (w, ok sems) h =
      init_writes-Files (record s { world = w; rpipesems = sems })
        (initpipesems os (s.parms st_pipe) fdset_write w) h

  check_pipes-Files : (s : Run World) → Files (go_on s) → Files (check_pipes os s)
  unfolding check_pipes
  check_pipes-Files s h = elim (Bool-cases (ltb 0 (s.parms st_pipe).nmaxfds)) [
    | inl b ↦ rw b (init_reads-Files s (initpipesems os (s.parms st_pipe) fdset_read s.world) h)
    | inr b ↦ rw b h
  ]

  socks_pending-Files :
      (s : Run World) (r : World × Result ℕ × Sets)
      → Files (go_on s)
      → Files (go_on (socks_pending os s r))
  unfolding socks_pending
  socks_pending-Files s (w, fail e, sets) h = h
  socks_pending-Files s (w, ok zero, sets) h = h
  socks_pending-Files s (w, ok (suc n), sets) h = h

  make_cancelsock-Files :
      (s : Run World) (r : World × Result ℕ) → Files (go_on s) → Files (make_cancelsock os s r)
  unfolding make_cancelsock
  make_cancelsock-Files s (w, fail e) h = tt
  make_cancelsock-Files s (w, ok fd) h =
      let p = s.parms st_socket in
      socks_pending-Files (record s { world = w; cancelsock = some fd })
        (os.std_select w p.nmaxfds p.fdset (some nowait)) h

  make_hev_sock-Files :
      (s : Run World) (r : World × Option ℕ) → Files (go_on s) → Files (make_hev_sock os s r)
  unfolding make_hev_sock
  make_hev_sock-Files s (w, none) h = tt
  make_hev_sock-Files s (w, some hev) h =
      make_cancelsock-Files (record s { world = w; hev_sock = some hev }) (os.socket w) h

  then_sockets-Files : (p : Phase World) → Files p → Files (then_sockets os p)
  unfolding then_sockets check_sockets
  then_sockets-Files (clean_up s e) h = tt
  then_sockets-Files (leave w e) h = tt
  then_sockets-Files (go_on s) h = elim (Bool-cases (ltb 0 (s.parms st_socket).nmaxfds)) [
    | inl b ↦ rw b (make_hev_sock-Files s (os.dos_create_event_sem s.world none) h)
    | inr b ↦ rw b h
  ]

  -- The phases, where the loop that sorts has found a regular file.
  checked-Files :
      (w : World)
      → ltb 0 (parms st_file).nmaxfds ≡ true
      → Files (then_sockets os (check_pipes os (check_files (start os w parms))))
  unfolding check_files
  checked-Files w b =
      then_sockets-Files (check_pipes os (check_files (start os w parms)))
        (check_pipes-Files (check_files (start os w parms)) (rw b (refl, refl)))

  -- Where files are pending, nothing is waited for.
  pub decide-Files :
      (early : Bool) (timeout : Option TimeVal) (s : Run World)
      → Files (go_on s)
      → decide os early timeout s ≡ record {
        world = s.world;
        parms = clear_others s.pending s.parms;
        err = none;
        events = true;
      }
  unfolding decide
  decide-Files early timeout s (p, _) =
      let any : is_pending s.pending ≡ true = ground arith in rw any refl

  after_checks-Files :
      (early early' : Bool) (asked : Asked) (nfds : ℕ) (timeout timeout' : Option TimeVal)
      (p : Phase World)
      → Files p
      → after_checks os early asked nfds timeout p ≡ after_checks os early' asked nfds timeout' p
  unfolding after_checks
  after_checks-Files early early' asked nfds timeout timeout' (leave w e) h = refl
  after_checks-Files early early' asked nfds timeout timeout' (clean_up s e) h = refl
  after_checks-Files early early' asked nfds timeout timeout' (go_on s) h =
      ap (finish os asked nfds s)
        (decide-Files early timeout s h ∙ sym (decide-Files early' timeout' s h))

  pub merge-Reports :
      (asked : Asked) (nfds : ℕ) (final : Parms) (o : FdSetOp) (i : ℕ)
      → i < nfds
      → is_some (asked o) ≡ true
      → (final st_file).fdset o (pos i) ≡ true
      → Reports o i (ok (merge asked nfds final true))
  unfolding merge
  merge-Reports asked nfds final o i lt given mem =
      let m = merge_fds asked final nfds in
      let sets = merge_fds-sets asked final nfds o i in
      let file : member asked final st_file o (pos i) ≡ true = rw (given, mem) refl in
      let here : m.sets o (pos i) ≡ true = ground arith in
      is_asked-given_back (is_some (asked o)) (m.sets o) (pos i) ∙ rw (given, here) refl

  after_checks-Reports :
      (early : Bool) (asked : Asked) (nfds : ℕ) (timeout : Option TimeVal) (p : Phase World)
      (o : FdSetOp) (i : ℕ)
      → Files p
      → i < nfds
      → is_some (asked o) ≡ true
      → (parms st_file).fdset o (pos i) ≡ true
      → Reports o i (after_checks os early asked nfds timeout p).1
  unfolding after_checks finish outcome clear_others
  after_checks-Reports early asked nfds timeout (leave w e) o i h lt given mem = tt
  after_checks-Reports early asked nfds timeout (clean_up s e) o i h lt given mem = tt
  after_checks-Reports early asked nfds timeout (go_on s) o i h lt given mem =
      rw (decide-Files early timeout s h)
        (merge-Reports asked nfds (clear_others s.pending s.parms) o i lt given (rw (h.0, h.1) mem))

pub asked-given :
    (asked : Asked) (o : FdSetOp) (i : ℕ)
    → is_asked asked o (pos i) ≡ true
    → is_some (asked o) ≡ true
asked-given asked o i = given (asked o)
  where
    given :
        (s : Option FdSet)
        → (elim s [ none ↦ false | some t ↦ t (pos i) ]) ≡ true
        → is_some s ≡ true
    given none e = e
    given (some t) e = refl

pub given-asked :
    (os : Os) (asked : Asked) (o : FdSetOp) → is_some (asked o) ≡ true → none_asked os asked ≡ false
given-asked os asked fdset_read given = ground arith
given-asked os asked fdset_write given = ground arith
given-asked os asked fdset_except given = ground arith

module _ (os : Os) (asked : Asked) (o : FdSetOp) where
  open os use {World}

  select_sorted-immediate :
      (early early' : Bool) (nfds : ℕ) (timeout timeout' : Option TimeVal) (w : World)
      (r : Parms × Status)
      → (is_ok r.1 ≡ true → ltb 0 (r.0 st_file).nmaxfds ≡ true)
      → select_sorted os early asked nfds timeout w r
        ≡ select_sorted os early' asked nfds timeout' w r
  unfolding select_sorted select_parms
  select_sorted-immediate early early' nfds timeout timeout' w (parms, fail e) files = refl
  select_sorted-immediate early early' nfds timeout timeout' w (parms, ok _) files =
      after_checks-Files os parms early early' asked nfds timeout timeout'
        (then_sockets os (check_pipes os (check_files (start os w parms))))
        (checked-Files os parms w (files refl))

  select_sorted-Reports :
      (early : Bool) (nfds : ℕ) (timeout : Option TimeVal) (w : World) (r : Parms × Status) (i : ℕ)
      → (is_ok r.1 ≡ true → ltb 0 (r.0 st_file).nmaxfds ≡ true)
      → (is_ok r.1 ≡ true → (r.0 st_file).fdset o (pos i) ≡ true)
      → i < nfds
      → is_some (asked o) ≡ true
      → Reports o i (select_sorted os early asked nfds timeout w r).1
  unfolding select_sorted select_parms
  select_sorted-Reports early nfds timeout w (parms, fail e) i files mem lt given = tt
  select_sorted-Reports early nfds timeout w (parms, ok _) i files mem lt given =
      after_checks-Reports os parms early asked nfds timeout
        (then_sockets os (check_pipes os (check_files (start os w parms)))) o i
        (checked-Files os parms w (files refl)) lt given (mem refl)

module _ (os : Os) (h : Handles) (nfds : ℕ) (asked : Asked) (o : FdSetOp) (i : ℕ) (lt : i < nfds)
    (file : h.fstat (pos i) ≡ ok regular) (wanted : is_asked asked o (pos i) ≡ true) where
  open os use {World, np_end_server}

  file-sorted : sorted np_end_server h asked st_file o i ≡ true
  unfolding type_of_kind accepts
  file-sorted = rw (wanted, type_at, file) refl

  file-member :
      is_ok (categorize np_end_server h asked nfds).1 ≡ true
      → ((categorize np_end_server h asked nfds).0 st_file).fdset o (pos i) ≡ true
  file-member good =
      let here : ltb i nfds ≡ true = ground arith in
      categorize-sorted np_end_server h asked nfds good st_file o i ∙ rw (here, file-sorted) refl

  pub file-nmaxfds :
      is_ok (categorize np_end_server h asked nfds).1 ≡ true
      → ltb 0 ((categorize np_end_server h asked nfds).0 st_file).nmaxfds ≡ true
  file-nmaxfds good =
      let (_, all) = categorize-Bounded np_end_server h asked nfds st_file in
      let (le, below) = all o in let m = below i (file-member good) in ground arith

  select-immediate :
      (early early' : Bool) (timeout timeout' : Option TimeVal) (w : World)
      → select os early h nfds asked timeout w ≡ select os early' h nfds asked timeout' w
  unfolding select
  select-immediate early early' timeout timeout' w =
      rw (given-asked os asked o (asked-given asked o i wanted)) (
        select_sorted-immediate os asked o early early' nfds timeout timeout' w
          (categorize np_end_server h asked nfds) file-nmaxfds)

  select-Reports :
      (early : Bool) (timeout : Option TimeVal) (w : World)
      → Reports o i (select os early h nfds asked timeout w).1
  unfolding select
  select-Reports early timeout w =
      let given = asked-given asked o i wanted in
      rw (given-asked os asked o given) (
        select_sorted-Reports os asked o early nfds timeout w
          (categorize np_end_server h asked nfds) i file-nmaxfds file-member lt given)

  -- With a regular file among the descriptors below `nfds` that are asked for, select() does the
  -- same whatever its timeout is and whatever the order in which a thread and the wait would end,
  -- so that it does not wait; and where it succeeds, it reports that file in the set that asks for
  -- it.
  pub select-file :
      (early early' : Bool) (timeout timeout' : Option TimeVal) (w : World)
      → (select os early h nfds asked timeout w ≡ select os early' h nfds asked timeout' w)
        × Reports o i (select os early h nfds asked timeout w).1
  select-file early early' timeout timeout' w =
      (select-immediate early early' timeout timeout' w, select-Reports early timeout w)
