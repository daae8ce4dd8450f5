-- ===== src/Network/Select/Phases.antt =====
-- network/select.c: the phases of select() that look for events that are pending.
use os2compat.Prelude.{
  ℕ, zero, suc, ltb, ◌==◌, ◌+◌, if◌then◌else◌, Bool, true, false, ◌&&◌, ◌||◌, Option, none, some,
  List,
}
use os2compat.System.{Errno, enomem, Result, ok, fail}
use os2compat.Network.Poll.{FdSet, TimeVal}
use os2compat.Network.Select.{
  SelectType, st_console, st_file, st_pipe, st_socket, same_type, fdset_read, fdset_write,
  fdset_except, Parms, set_parm,
}
use os2compat.Network.Select.Os.{Os, Sets}
use os2compat.Network.Select.Pipes.{PipeSem, initpipesems, checkpipesems}
use os2compat.Network.Select.Wait.{nowait, no_fds}

-- `pending`, as the types whose bit is set.
abbrev pub Pending : Type 0
Pending = SelectType → Bool

-- The local variables of select(): `rpipesems` and `wpipesems` hold as many as `nrpipesems` and
-- `nwpipesems` say, none where those are 0 or -1; a socket that was not made is `none`.
pub record Run (W : Type 0) : Type 0 where
  pub world : W
  pub parms : Parms
  pub pending : Pending
  pub rpipesems : List PipeSem
  pub wpipesems : List PipeSem
  pub hev_sock : Option ℕ
  pub cancelsock : Option ℕ

-- How a phase ends: it goes on, it goes to `cleanup`, or the function returns.
pub data Phase (W : Type 0) : Type 0 where
  go_on : Run W → Phase W
  clean_up : Run W → Errno → Phase W
  leave : W → Errno → Phase W

abbrev pub set_pending : SelectType → Pending → Pending
set_pending t p u = same_type u t || p u

-- `timeout == &nowait`: some event is pending.
abbrev pub is_pending : Pending → Bool
is_pending p = p st_console || p st_file || p st_pipe || p st_socket

abbrev pub both_sets : FdSet → FdSet → Sets → Sets
both_sets rset wset old o = elim o [
  | fdset_read ↦ rset
  | fdset_write ↦ wset
  | fdset_except ↦ old fdset_except
]

abbrev pub is_nowait : Option TimeVal → Bool
is_nowait none = false
is_nowait (some t) = t.tv_sec == 0 && t.tv_usec == 0

-- The pending events of other types are cleared.
unfoldable pub clear_others : Pending → Parms → Parms
clear_others pending parms t = if pending t then parms t else no_fds (parms t)

unfoldable pub check_files : {W : Type 0} → Run W → Run W
check_files s =
    if ltb 0 (s.parms st_file).nmaxfds
    then record s { pending = set_pending st_file s.pending }
    else s

module _ (os : Os) where
  open os use {
    World, std_select, std_sleep, socket, close, dos_create_event_sem, dos_close_event_sem,
    np_end_server,
  }

  -- Both kinds of semaphores are there: what is pending is looked up.
  unfoldable pub check_pipe_sems : Run World → Phase World
  unfolding checkpipesems
  check_pipe_sems s =
      let (v, m, rset) = checkpipesems os true s.rpipesems s.world in
      let (u, n, wset) = checkpipesems os true s.wpipesems v in
      let p = s.parms st_pipe in
      if ltb 0 (m + n)
      then go_on (record s {
        world = u;
        parms = set_parm st_pipe (record p { fdset = both_sets rset wset p.fdset }) s.parms;
        pending = set_pending st_pipe s.pending;
      })
      else go_on (record s { world = u })

  unfoldable pub init_writes : Run World → World × Result (List PipeSem) → Phase World
  unfolding check_pipe_sems
  init_writes s (w, fail e) = clean_up (record s { world = w }) e
  init_writes s (w, ok sems) = check_pipe_sems (record s { world = w; wpipesems = sems })

  unfoldable pub init_reads : Run World → World × Result (List PipeSem) → Phase World
  unfolding init_writes initpipesems
  init_reads s (w, fail e) = leave w e
  init_reads s (w, ok sems) =
      init_writes (record s { world = w; rpipesems = sems })
        (initpipesems os (s.parms st_pipe) fdset_write w)

  -- The block "check pipes".
  unfoldable pub check_pipes : Run World → Phase World
  unfolding init_reads
  check_pipes s =
      if ltb 0 (s.parms st_pipe).nmaxfds
      then init_reads s (initpipesems os (s.parms st_pipe) fdset_read s.world)
      else go_on s

  -- What the runtime's select() answers at once for the sockets.
  unfoldable pub socks_pending : Run World → World × Result ℕ × Sets → Run World
  socks_pending s (w, fail e, sets) = record s { world = w }
  socks_pending s (w, ok zero, sets) = record s { world = w }
  socks_pending s (w, ok (suc n), sets) = record s {
    world = w;
    parms = set_parm st_socket (record (s.parms st_socket) { fdset = sets }) s.parms;
    pending = set_pending st_socket s.pending;
  }

  unfoldable pub make_cancelsock : Run World → World × Result ℕ → Phase World
  unfolding socks_pending
  make_cancelsock s (w, fail e) = clean_up (record s { world = w }) e
  make_cancelsock s (w, ok fd) =
      let p = s.parms st_socket in
      go_on (
        socks_pending (record s { world = w; cancelsock = some fd })
          (std_select w p.nmaxfds p.fdset (some nowait)))

  unfoldable pub make_hev_sock : Run World → World × Option ℕ → Phase World
  unfolding make_cancelsock
  make_hev_sock s (w, none) = clean_up (record s { world = w }) enomem
  make_hev_sock s (w, some hev) =
      make_cancelsock (record s { world = w; hev_sock = some hev }) (socket w)

  -- The block "check sockets".
  unfoldable pub check_sockets : Run World → Phase World
  unfolding make_hev_sock
  check_sockets s =
      if ltb 0 (s.parms st_socket).nmaxfds
      then make_hev_sock s (dos_create_event_sem s.world none)
      else go_on s

  -- The phases behind one that goes on.
  unfoldable pub then_sockets : Phase World → Phase World
  unfolding check_sockets
  then_sockets (go_on s) = check_sockets s
  then_sockets (clean_up s e) = clean_up s e
  then_sockets (leave w e) = leave w e
