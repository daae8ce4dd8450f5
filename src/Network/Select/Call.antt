-- ===== src/Network/Select/Call.antt =====
-- network/select.c: `select`.
use os2compat.Prelude.{
  ℕ, ltb, if◌then◌else◌, is_some, Bool, true, false, not, ◌||◌, Option, none, some, [],
}
use os2compat.System.{Errno, Result, ok, fail, Status, Handles}
use os2compat.Network.Poll.{TimeVal}
use os2compat.Network.Select.{
  st_pipe, st_socket, fdset_read, fdset_write, fdset_except, Parms, Asked, categorize,
}
use os2compat.Network.Select.Os.{Os}
use os2compat.Network.Select.Pipes.{termpipesems}
use os2compat.Network.Select.Merge.{merge}
use os2compat.Network.Select.Phases.{
  Run, Phase, go_on, clean_up, leave, is_pending, is_nowait, clear_others, check_files, check_pipes,
  then_sockets,
}
use os2compat.Network.Select.Wait.{Waiting, Waited, wait_events}

module _ (os : Os) where
  open os use {World, std_sleep, close, dos_close_event_sem, np_end_server}

  abbrev pub as_waiting : Run World → Waiting World
  as_waiting s = record {
    world = s.world;
    parms = s.parms;
    rpipesems = s.rpipesems;
    wpipesems = s.wpipesems;
    hev_sock = s.hev_sock;
    cancelsock = elim s.cancelsock [ none ↦ 0 | some fd ↦ fd ];
  }

  -- From "pending events" to `mergefds`: without waiting where something is pending.
  unfoldable pub decide : Bool → Option TimeVal → Run World → Waited World
  unfolding clear_others wait_events
  decide early timeout s =
      if is_pending s.pending
      then record {
        world = s.world;
        parms = clear_others s.pending s.parms;
        err = none;
        events = true;
      }
      else if is_nowait timeout
      then record { world = s.world; parms = s.parms; err = none; events = false }
      else wait_events os early (as_waiting s) timeout

  abbrev pub close_if : Option ℕ → World → World
  close_if none w = w
  close_if (some fd) w = close w fd

  abbrev pub close_sem_if : Option ℕ → World → World
  close_sem_if none w = w
  close_sem_if (some hev) w = dos_close_event_sem w hev

  -- The label `cleanup`; closing what was not made does nothing.
  unfoldable pub cleanup : Run World → World → World
  unfolding termpipesems
  cleanup s w =
      let v =
        if ltb 0 (s.parms st_socket).nmaxfds
        then close_sem_if s.hev_sock (close_if s.cancelsock w)
        else w in
      if ltb 0 (s.parms st_pipe).nmaxfds
      then termpipesems os s.rpipesems (termpipesems os s.wpipesems v)
      else v

  -- What the function returns.
  unfoldable pub outcome : Asked → ℕ → Waited World → Option Errno → Result (ℕ × Asked)
  unfolding merge
  outcome asked nfds r none = ok (merge asked nfds r.parms r.events)
  outcome asked nfds r (some e) = fail e

  -- From the labels to the end.
  unfoldable pub finish : Asked → ℕ → Run World → Waited World → World × Result (ℕ × Asked)
  unfolding cleanup outcome
  finish asked nfds s r = (cleanup s r.world, outcome asked nfds r r.err)

  unfoldable pub after_checks :
      Bool → Asked → ℕ → Option TimeVal → Phase World → World × Result (ℕ × Asked)
  unfolding finish decide
  after_checks early asked nfds timeout (leave w e) = (w, fail e)
  after_checks early asked nfds timeout (clean_up s e) = (cleanup s s.world, fail e)
  after_checks early asked nfds timeout (go_on s) = finish asked nfds s (decide early timeout s)

  abbrev pub start : World → Parms → Run World
  start w parms = record {
    world = w;
    parms = parms;
    pending = λ t. false;
    rpipesems = [];
    wpipesems = [];
    hev_sock = none;
    cancelsock = none;
  }

  -- `select` without its wait mode, once the descriptors are categorized.
  unfoldable pub select_parms :
      Bool → Asked → ℕ → Option TimeVal → World → Parms → World × Result (ℕ × Asked)
  unfolding after_checks then_sockets check_pipes check_files
  select_parms early asked nfds timeout w parms =
      after_checks early asked nfds timeout
        (then_sockets os (check_pipes os (check_files (start w parms))))

  abbrev pub none_asked : Asked → Bool
  none_asked asked =
      not
        (is_some (asked fdset_read) || is_some (asked fdset_write) || is_some (asked fdset_except))

  abbrev pub with_sets : Asked → Result ℕ → Result (ℕ × Asked)
  with_sets asked (fail e) = fail e
  with_sets asked (ok n) = ok (n, asked)

  -- `select` with no set at all, which only waits.
  unfoldable pub sleep : Asked → Option TimeVal → World → World × Result (ℕ × Asked)
  sleep asked timeout w = let (v, r) = std_sleep w timeout in (v, with_sets asked r)

  -- After the loop that categorizes.
  unfoldable pub select_sorted :
      Bool → Asked → ℕ → Option TimeVal → World → Parms × Status → World × Result (ℕ × Asked)
  unfolding select_parms
  select_sorted early asked nfds timeout w (parms, fail e) = (w, fail e)
  select_sorted early asked nfds timeout w (parms, ok _) =
      select_parms early asked nfds timeout w parms

  -- `select`; `early` is the order in which its thread for sockets and its own wait end.
  unfoldable pub select :
      Bool → Handles → ℕ → Asked → Option TimeVal → World → World × Result (ℕ × Asked)
  unfolding select_sorted sleep categorize
  select early h nfds asked timeout w =
      if none_asked asked
      then sleep asked timeout w
      else select_sorted early asked nfds timeout w (categorize np_end_server h asked nfds)
