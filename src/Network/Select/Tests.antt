-- ===== src/Network/Select/Tests.antt =====
-- network/select.c: the theorems on concrete descriptors.
use os2compat.Prelude.{
  Option, none, some, ℕ, zero, suc, ltb, ◌+◌, ◌-◌, ◌<◌, ◌≡◌, ◌↔◌, refl, true, false, ◌&&◌, [], ℤ,
  pos, negsuc, arith,
}
use os2compat.System.{Result, ok, fail, ebadf, regular, fifo, sock, FileKind, Handles}
use os2compat.Network.Poll.{TimeVal}
use os2compat.Network.Select.{
  SelectType, FdSetOp, fdset_read, fdset_write, fdset_except, Asked, is_asked, categorize,
}
use os2compat.Network.Select.Os.{Os, added, mux_posted}
use os2compat.Network.Select.Laws.{HandleKind, event_sem, mux_sem, socket_fd, one_of, HandleLaws}
use os2compat.Network.Select.Sorted.{is_ok, sorted, all_typed}
use os2compat.Network.Select.Bounded.{AllBounded, categorize_lem}
use os2compat.Network.Select.Call.{select}
use os2compat.Network.Select.Closed.{select-held}
use os2compat.Network.Select.Ready.{Reports, select-file}
use os2compat.Network.Select.Files.{select-files}
use os2compat.Network.Select.Within.{SetLaws}
use os2compat.Network.Select.Reached.{AnswerIn, AskedFor, select-asked}

abbrev Desk : Type 0
Desk = HandleKind → ℕ → ℕ

abbrev bump : HandleKind → ℕ → Desk → Desk
bump k h w l x = w l x + one_of k h l x

abbrev drop : HandleKind → ℕ → Desk → Desk
drop k h w l x = w l x - one_of k h l x

-- A system where all calls succeed, and every semaphore is posted.
abbrev desk : Os
desk = record {
  World = Desk;
  pipe_name = λ w fd. [];
  sem_name = λ name op. [];
  dos_create_event_sem = λ w name. (bump event_sem 7 w, some 7);
  dos_open_event_sem = λ w name. (bump event_sem 8 w, some 8);
  dos_close_event_sem = λ w hev. drop event_sem hev w;
  dos_set_npipe_sem = λ w fd hev op. (w, true);
  dos_query_npipe_sem_state = λ w hev. (w, []);
  dos_reset_event_sem = λ w hev. w;
  dos_post_event_sem = λ w hev. w;
  dos_wait_event_sem = λ w hev. (w, true);
  dos_create_mux_wait_sem = λ w. (bump mux_sem 3 w, some 3);
  dos_add_mux_wait_sem = λ w hmux hev user. (w, added);
  dos_wait_mux_wait_sem = λ w hmux ms. (w, mux_posted);
  dos_close_mux_wait_sem = λ w hmux. drop mux_sem hmux w;
  std_select = λ w n sets timeout. (w, ok 1, sets);
  interrupted_select = λ w sets. (w, sets);
  std_sleep = λ w timeout. (w, ok 0);
  socket = λ w. (bump socket_fd 9 w, ok 9);
  close = λ w fd. drop socket_fd fd w;
  so_cancel = λ w fd. w;
  begin_thread = λ w. (w, none);
  dos_wait_thread = λ w. w;
  np_end_server = λ state. true;
}

abbrev desk_handles : HandleLaws desk
desk_handles = record {
  held = λ w. w;
  dos_create_event_sem-Opens = λ w name k x. refl;
  dos_open_event_sem-Opens = λ w name k x. refl;
  dos_close_event_sem-Closes = λ w hev k x. refl;
  dos_create_mux_wait_sem-Opens = λ w k x. refl;
  dos_close_mux_wait_sem-Closes = λ w hmux k x. refl;
  socket-Opens = λ w k x. refl;
  close-Closes = λ w fd k x. refl;
  dos_set_npipe_sem-Keeps = λ w fd hev op k x. refl;
  dos_query_npipe_sem_state-Keeps = λ w hev k x. refl;
  dos_reset_event_sem-Keeps = λ w hev k x. refl;
  dos_post_event_sem-Keeps = λ w hev k x. refl;
  dos_wait_event_sem-Keeps = λ w hev k x. refl;
  dos_add_mux_wait_sem-Keeps = λ w hmux hev user k x. refl;
  dos_wait_mux_wait_sem-Keeps = λ w hmux ms k x. refl;
  std_select-Keeps = λ w n sets timeout k x. refl;
  interrupted_select-Keeps = λ w sets k x. refl;
  std_sleep-Keeps = λ w timeout k x. refl;
  so_cancel-Keeps = λ w fd k x. refl;
  begin_thread-Keeps = λ w k x. refl;
  dos_wait_thread-Keeps = λ w k x. refl;
}

abbrev desk_sets : SetLaws desk
desk_sets = record {
  std_select-subset = λ w n sets timeout o x mem. mem;
  interrupted_select-subset = λ w sets o x mem. mem;
}

-- A pipe, a socket, and files behind them.
abbrev kind_of : ℤ → Result FileKind
kind_of (pos zero) = ok fifo
kind_of (pos (suc zero)) = ok sock
kind_of (pos (suc (suc n))) = ok regular
kind_of (negsuc _) = fail ebadf

abbrev table : Handles
table = record { fstat = kind_of; is_socket = λ fd. true; pipe_state = λ fd. some 0 }

abbrev files : Handles
files = record { fstat = λ fd. ok regular; is_socket = λ fd. false; pipe_state = λ fd. none }

abbrev nothing : Desk
nothing k x = 0

abbrev to_read : Asked
to_read fdset_read = some (λ fd. true)
to_read fdset_write = none
to_read fdset_except = none

categorize_lem_example :
    (is_ok (categorize desk.np_end_server table to_read 3).1 ≡ true
      ↔ ((i : ℕ) → i < 3 → all_typed desk.np_end_server table to_read i ≡ true))
    × (is_ok (categorize desk.np_end_server table to_read 3).1 ≡ true
        → (t : SelectType) (o : FdSetOp) (i : ℕ)
        → ((categorize desk.np_end_server table to_read 3).0 t).fdset o (pos i)
          ≡ (ltb i 3 && sorted desk.np_end_server table to_read t o i))
    × AllBounded 3 (categorize desk.np_end_server table to_read 3).0
categorize_lem_example = categorize_lem desk.np_end_server table to_read 3

three_sorted : is_ok (categorize desk.np_end_server table to_read 3).1 ≡ true
unfolding categorize
three_sorted = refl

select-held_example :
    desk_handles.held (select desk true table 2 to_read none nothing).0 event_sem 7 ≡ 0
select-held_example = select-held desk desk_handles event_sem 7 true table 2 to_read none nothing

abbrev five : Option TimeVal
five = some (record { tv_sec = 5; tv_usec = 0 })

select-file_example :
    (select desk true table 3 to_read none nothing ≡ select desk false table 3 to_read five nothing)
    × Reports fdset_read 2 (select desk true table 3 to_read none nothing).1
select-file_example =
    select-file desk table 3 to_read fdset_read 2 (omega arith) refl refl true false none five
      nothing

select-files_example :
    (n : ℕ) × (answer : Asked) × (select desk true files 2 to_read none nothing
      ≡ (nothing, ok (n, answer)))
    × ((o : FdSetOp) (i : ℕ) → is_asked answer o (pos i) ≡ (ltb i 2 && is_asked to_read o (pos i)))
select-files_example =
    select-files desk files 2 to_read (λ o i lt wanted. refl) true none nothing fdset_read 1
      (omega arith) refl

select-asked_example :
    AnswerIn
      (AskedFor desk desk_sets table 2 to_read nothing)
      (select desk false table 2 to_read none nothing).1
select-asked_example = select-asked desk desk_sets table 2 to_read nothing false none
