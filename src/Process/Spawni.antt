-- ===== src/Process/Spawni.antt =====
-- process/posix_spawn/spawni.c: the worker of posix_spawn() and posix_spawnp().
pub mod Restored
pub mod Handles
mod Tests
use os2compat.Prelude.{
  ℕ, zero, suc, ◌-◌, ◌+◌, ◌*◌, if◌then◌else◌, is_some, Bool, true, false, ◌&&◌, ◌||◌, Option, none,
  some, List, [], ◌∷◌, ◌++◌, ℤ, length,
}
use os2compat.System.{Errno, einval, enosys, Result, ok, fail, Status}
use os2compat.Process.Spawn2.Runtime.{
  Os, SymName, sym_posix_spawn, sym_posix_spawnp, FdFlags, Str, Redir, StdFds, no_fds, xredir_fds,
  SpawnMode, Program, Answer, started, minus_one, error_number,
}
use os2compat.Process.Spawn2.{
  Cached, not_tried, tried, Machine, open_libc, sym_in, os2compat_load_spawn2,
}
use os2compat.Process.Spawn2.Child.{take, sizeof_int, os2compat_spawn2ve, os2compat_spawn2vpe}

-- `struct __spawn_action`
pub data Action : Type 0 where
  spawn_do_close : (fd : ℤ) → Action
  spawn_do_dup2 : (fd newfd : ℤ) → Action
  spawn_do_open : (fd : ℤ) (path : Str) (oflag mode : ℕ) → Action
  spawn_do_chdir : (path : Str) → Action
  spawn_do_fchdir : (fd : ℤ) → Action

-- `RESTOREACTION`; `keep_fd` is the tag -1.
pub data RestoreAction : Type 0 where
  keep_fd : RestoreAction
  restore_flags : ℤ → FdFlags → RestoreAction
  close_opened : ℤ → RestoreAction

-- Whether some of the bits are set: those of signals, of scheduling, and of groups and ids.
pub record AttrFlags : Type 0 where
  pub setsigmask_or_setsigdef : Bool
  pub setschedparam_or_setscheduler : Bool
  pub setpgroup_or_resetids : Bool

-- `attrp ? attrp->__flags : 0`, as the answer to the three tests.
abbrev pub unsupported : Option AttrFlags → Bool
unsupported none = false
unsupported (some f) =
    f.setsigmask_or_setsigdef || f.setschedparam_or_setscheduler || f.setpgroup_or_resetids

-- The static variables of the file.
pub record SpawnStatics : Type 0 where
  pub libc_handle : Cached
  pub libc_posix_spawn : Cached
  pub libc_posix_spawnp : Option ℕ

-- While the actions are executed: `pRAction` points behind the first of `restores`.
pub record Applied (W : Type 0) : Type 0 where
  pub world : W
  pub cwd : Str
  pub restores : List RestoreAction
  pub redirs : List Redir

abbrev pub dir_of : Str → Option Str
dir_of [] = none
dir_of (c ∷ cs) = some (c ∷ cs)

module _ (os : Os) where
  open os use {
    World, hmalloc, free, libc_fh, fcntl_getfd, fcntl_setfd, open_noinherit, close, libc_fh_to_path,
    fn_is_rel, make_path, max_path, call_posix_spawn, errno,
  }

  unfoldable pub marked : ℤ → FdFlags → World × Status → World × Option RestoreAction
  marked fd flags (w, fail e) = (w, none)
  marked fd flags (w, ok _) = (w, some (restore_flags fd flags))

  -- The flag is set, unless the handle has it.
  unfoldable pub mark_cloexec : World → ℤ → FdFlags → World × Option RestoreAction
  unfolding marked
  mark_cloexec w fd flags =
      if flags.cloexec
      then (w, some keep_fd)
      else marked fd flags (fcntl_setfd w fd (record flags { cloexec = true }))

  unfoldable pub save_flags : World → ℤ → Result FdFlags → World × Option RestoreAction
  unfolding mark_cloexec
  save_flags w fd (fail e) = (w, none)
  save_flags w fd (ok flags) = mark_cloexec w fd flags

  -- `save_handle` with `spawn_do_close`
  unfoldable pub save_closed : World → ℤ → World × Option RestoreAction
  unfolding save_flags
  save_closed w fd = if libc_fh w fd then save_flags w fd (fcntl_getfd w fd) else (w, none)

  -- `save_handle` with `spawn_do_open`
  unfoldable pub save_opened : World → ℤ → Option RestoreAction
  save_opened w fd = if libc_fh w fd then some (close_opened fd) else none

  -- `restore_handle`
  unfoldable pub restore_handle : RestoreAction → World → World
  restore_handle keep_fd w = w
  restore_handle (restore_flags fd flags) w = (fcntl_setfd w fd flags).0
  restore_handle (close_opened fd) w = close w fd

  -- The loop that restores, from the last action to the first.
  unfoldable pub restore_all : List RestoreAction → World → World
  unfolding restore_handle
  restore_all [] w = w
  restore_all (r ∷ rs) w = restore_all rs (restore_handle r w)

  -- A path of an action, below the directory of an earlier one.
  unfoldable pub merged_path : Str → Str → Str
  merged_path [] path = path
  merged_path (c ∷ cs) path = if fn_is_rel path then make_path (c ∷ cs) path else path

  unfoldable pub closed : Applied World → World × Option RestoreAction → Applied World × Bool
  closed s (w, none) = (record s { world = w }, false)
  closed s (w, some r) = (record s { world = w; restores = r ∷ s.restores }, true)

  abbrev pub redirected : Applied World → Redir → Applied World
  redirected s r = record s { redirs = s.redirs ++ (r ∷ []) }

  unfoldable pub saved : ℤ → Applied World → ℤ → Option RestoreAction → Applied World × Bool
  saved fd s opened none = (record s { world = close s.world opened }, false)
  saved fd s opened (some r) =
      (redirected (record s { restores = r ∷ s.restores }) (opened, fd), true)

  unfoldable pub opened : ℤ → Applied World → World × Result ℤ → Applied World × Bool
  unfolding saved save_opened
  opened fd s (w, fail e) = (record s { world = w }, false)
  opened fd s (w, ok new) = saved fd (record s { world = w }) new (save_opened w new)

  unfoldable pub entered : Applied World → Result Str → Applied World × Bool
  entered s (fail e) = (s, false)
  entered s (ok path) = (record s { cwd = path }, true)

  -- The switch on one action; the flag is false where `rc` is not 0.
  unfoldable pub apply_action : Action → Applied World → Applied World × Bool
  unfolding closed save_closed opened merged_path entered
  apply_action (spawn_do_close fd) s = closed s (save_closed s.world fd)
  apply_action (spawn_do_dup2 fd newfd) s =
      if libc_fh s.world fd then (redirected s (fd, newfd), true) else (s, false)
  apply_action (spawn_do_open fd path oflag mode) s =
      opened fd s (open_noinherit s.world (merged_path s.cwd path) oflag mode)
  apply_action (spawn_do_chdir path) s =
      (record s { cwd = take (max_path - 1) (merged_path s.cwd path) }, true)
  apply_action (spawn_do_fchdir fd) s = entered s (libc_fh_to_path s.world fd)

  -- The loop on the actions, up to the first that fails.
  unfoldable pub apply_actions : List Action → Applied World → Applied World × Bool
  unfolding apply_action
  apply_actions [] s = (s, true)
  apply_actions (a ∷ rest) s =
      let (t, good) = apply_action a s in
      let after = apply_actions rest t in if good then after else (t, false)

  -- The spawn, with a search or without one.
  abbrev pub spawn_mode : Str → SpawnMode
  spawn_mode cwd = record { noinherit = false; threadsafe = is_some (dir_of cwd); base = 0 }

  unfoldable pub spawn_child :
      Bool → Program → Str → StdFds → Machine World → Machine World × Result ℕ
  unfolding os2compat_spawn2vpe os2compat_spawn2ve
  spawn_child use_path p cwd fds m =
      let q = record p { cwd = dir_of cwd } in
      if use_path
      then os2compat_spawn2vpe os (spawn_mode cwd) q fds m
      else os2compat_spawn2ve os (spawn_mode cwd) q fds m

  unfoldable pub spawn_if_good :
      Bool → Program → Str → StdFds → Machine World → Bool → Machine World × Result ℕ
  unfolding spawn_child
  spawn_if_good use_path p cwd fds m true = spawn_child use_path p cwd fds m
  spawn_if_good use_path p cwd fds m false = (m, fail einval)

  -- From the actions to the end, with both arrays.
  unfoldable pub spawn_applied :
      Bool → Program → ℕ → ℕ → Machine World → Applied World × Bool → Machine World × Result ℕ
  unfolding spawn_if_good restore_all
  spawn_applied use_path p fds_block restore_block m (s, good) =
      let (n, r) =
        spawn_if_good use_path p s.cwd (xredir_fds s.redirs) (record m { world = s.world }) good in
      (record n { world = free (free (restore_all s.restores n.world) restore_block) fds_block }, r)

  -- The second array, of restore actions.
  unfoldable pub spawn_restoring :
      Bool → Program → List Action → ℕ → Machine World → World × Option ℕ → Machine World × Result ℕ
  unfolding spawn_applied apply_actions
  spawn_restoring use_path p actions fds_block m (w, none) =
      let v = free w fds_block in (record m { world = v }, fail (errno v))
  spawn_restoring use_path p actions fds_block m (w, some restore_block) =
      spawn_applied use_path p fds_block restore_block m
        (apply_actions actions (record { world = w; cwd = []; restores = []; redirs = [] }))

  -- `sizeof( RESTOREACTION )`
  abbrev pub sizeof_restore : ℕ
  sizeof_restore = 12

  -- The first array, of pairs.
  unfoldable pub spawn_redirecting :
      Bool → Program → List Action → Machine World → World × Option ℕ → Machine World × Result ℕ
  unfolding spawn_restoring
  spawn_redirecting use_path p actions m (w, none) = (record m { world = w }, fail (errno w))
  spawn_redirecting use_path p actions m (w, some fds_block) =
      spawn_restoring use_path p actions fds_block m (hmalloc w (sizeof_restore * length actions))

  unfoldable pub spawn_actions :
      Bool → Program → Option (List Action) → Machine World → Machine World × Result ℕ
  unfolding spawn_redirecting
  spawn_actions use_path p none m = spawn_child use_path p [] no_fds m
  spawn_actions use_path p (some actions) m =
      spawn_redirecting use_path p actions m (hmalloc m.world (4 * length actions * 2 + 1))

  -- `load_libc_sym` of this file, on its own handle.
  unfoldable pub load_libc_sym : World → SpawnStatics → SymName → World × SpawnStatics × Option ℕ
  unfolding open_libc
  load_libc_sym w st sym =
      let (v, handle) = open_libc os w st.libc_handle in
      (v, record st { libc_handle = tried handle }, sym_in os v handle sym)

  unfoldable pub look_for_posix_spawn : World → SpawnStatics → Cached → World × SpawnStatics
  unfolding load_libc_sym
  look_for_posix_spawn w st (tried f) = (w, st)
  look_for_posix_spawn w st not_tried =
      let (v, st1, f) = load_libc_sym w st sym_posix_spawn in
      let (u, st2, g) =
        load_libc_sym v (record st1 { libc_posix_spawn = tried f }) sym_posix_spawnp in
      (u, record st2 { libc_posix_spawnp = g })

  -- Both functions, where they are known.
  abbrev pub both_loaded : Cached → Option ℕ → Option (ℕ × ℕ)
  both_loaded (tried (some f)) (some g) = some (f, g)
  both_loaded _ _ = none

  -- `load_posix_spawn`: the two functions, or `none` where it returns -1.
  unfoldable pub load_posix_spawn : World → SpawnStatics → World × SpawnStatics × Option (ℕ × ℕ)
  unfolding look_for_posix_spawn
  load_posix_spawn w st =
      let (v, st1) = look_for_posix_spawn w st st.libc_posix_spawn in
      (v, st1, both_loaded st1.libc_posix_spawn st1.libc_posix_spawnp)

  -- The error number of the runtime's posix_spawn().
  abbrev pub posix_result : World × Answer → World × Result ℕ
  posix_result (w, started pid) = (w, ok pid)
  posix_result (w, minus_one) = (w, fail (errno w))
  posix_result (w, error_number e) = (w, fail e)

  unfoldable pub posix_fallback :
      Bool → Program → World × SpawnStatics × Option (ℕ × ℕ) → World × SpawnStatics × Result ℕ
  posix_fallback use_path p (w, st, none) = (w, st, fail enosys)
  posix_fallback use_path p (w, st, some (f, g)) =
      let (v, r) = posix_result (call_posix_spawn w (if use_path then g else f) p) in (v, st, r)

  abbrev pub spawn_supported :
      Bool
      → Program
      → Option (List Action)
      → Option AttrFlags
      → Machine World
      → Machine World × Result ℕ
  spawn_supported use_path p actions attr m =
      if unsupported attr then (m, fail enosys) else spawn_actions use_path p actions m

  unfoldable pub spawn_loaded :
      Bool
      → Program
      → Option (List Action)
      → Option AttrFlags
      → SpawnStatics
      → Machine World × Option ℕ
      → Machine World × SpawnStatics × Result ℕ
  unfolding spawn_actions posix_fallback load_posix_spawn
  spawn_loaded use_path p actions attr st (m, some f) =
      let (n, r) = spawn_supported use_path p actions attr m in (n, st, r)
  spawn_loaded use_path p actions attr st (m, none) =
      let (w, st1, r) = posix_fallback use_path p (load_posix_spawn m.world st) in
      (record m { world = w }, st1, r)

  -- `__os2compat_spawni`
  unfoldable pub os2compat_spawni :
      Bool
      → Program
      → Option (List Action)
      → Option AttrFlags
      → Machine World
      → SpawnStatics
      → Machine World × SpawnStatics × Result ℕ
  unfolding os2compat_load_spawn2 spawn_loaded
  os2compat_spawni use_path p actions attr m st =
      spawn_loaded use_path p actions attr st (os2compat_load_spawn2 os m)
