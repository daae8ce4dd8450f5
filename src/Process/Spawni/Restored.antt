-- ===== src/Process/Spawni/Restored.antt =====
-- process/posix_spawn/spawni.c: the handles of the parent after the worker.
use mathlib.Core.Path.{fun_ext}
use os2compat.Prelude.{
  ℕ, ◌≡◌, refl, sym, ap, ◌∙◌, inl, inr, if◌then◌else◌, is_some, true, Option, none, some, List, [],
  ◌∷◌, ℤ, eq_ℤ, Bool-cases, eq_of_parts, arith,
}
use os2compat.System.{Errno, Result, ok, fail, Status}
use os2compat.Process.Spawn2.Runtime.{Os, Dll, FdFlags, Str, StdFds, SpawnMode, Program}
use os2compat.Process.Spawni.{
  Action, spawn_do_close, spawn_do_dup2, spawn_do_open, spawn_do_chdir, spawn_do_fchdir,
  RestoreAction, keep_fd, restore_flags, close_opened, Applied, marked, mark_cloexec, save_flags,
  save_closed, save_opened, restore_handle, restore_all, closed, saved, opened, entered,
  merged_path, apply_action, apply_actions,
}

-- The handles that are open, each with its flags.
abbrev pub Table : Type 0
Table = ℤ → Option FdFlags

abbrev pub set_fd : ℤ → Option FdFlags → Table → Table
set_fd fd flags t x = if eq_ℤ x fd then flags else t x

-- What the calls on handles do to the table: F_SETFD changes the flags of a handle that is open and
-- fails on any other; open() gives a handle that was not open; close() closes; and no other call
-- changes the table of the parent.
pub record TableLaws (os : Os) : Type 0 where
  pub table : os.World → Table
  pub fcntl_getfd-table :
      (w : os.World) (fd : ℤ) (flags : FdFlags)
      → os.fcntl_getfd w fd ≡ ok flags
      → table w fd ≡ some flags
  pub fcntl_setfd-table :
      (w : os.World) (fd : ℤ) (flags : FdFlags) (x : ℤ)
      → table (os.fcntl_setfd w fd flags).0 x
        ≡ (if is_some (table w fd) then set_fd fd (some flags) (table w) x else table w x)
  pub fcntl_setfd-ok :
      (w : os.World) (fd : ℤ) (flags : FdFlags) (e : Errno)
      → (os.fcntl_setfd w fd flags).1 ≡ fail e
      → table w fd ≡ none
  pub open-fail :
      (w : os.World) (path : Str) (oflag mode : ℕ) (e : Errno) (x : ℤ)
      → (os.open_noinherit w path oflag mode).1 ≡ fail e
      → table (os.open_noinherit w path oflag mode).0 x ≡ table w x
  pub open-ok :
      (w : os.World) (path : Str) (oflag mode : ℕ) (fd : ℤ)
      → (os.open_noinherit w path oflag mode).1 ≡ ok fd
      → (table w fd ≡ none)
        × (flags : FdFlags) × ((x : ℤ)
            → table (os.open_noinherit w path oflag mode).0 x ≡ set_fd fd (some flags) (table w) x)
  pub close-table : (w : os.World) (fd x : ℤ) → table (os.close w fd) x ≡ set_fd fd none (table w) x
  pub dlopen-table : (w : os.World) (dll : Dll) → table (os.dlopen w dll).0 ≡ table w
  pub malloc-table : (w : os.World) (n : ℕ) → table (os.malloc w n).0 ≡ table w
  pub hmalloc-table : (w : os.World) (n : ℕ) → table (os.hmalloc w n).0 ≡ table w
  pub free-table : (w : os.World) (block : ℕ) → table (os.free w block) ≡ table w
  pub call_spawn2-table :
      (w : os.World) (f : ℕ) (mode : SpawnMode) (p : Program) (fds : StdFds)
      → table (os.call_spawn2 w f mode p fds).0 ≡ table w
  pub call_posix_spawn-table :
      (w : os.World) (f : ℕ) (p : Program) → table (os.call_posix_spawn w f p).0 ≡ table w

-- What the restoring makes of a table.
abbrev pub undo : RestoreAction → Table → Table
undo keep_fd t = t
undo (restore_flags fd flags) t = λ x. if is_some (t fd) then set_fd fd (some flags) t x else t x
undo (close_opened fd) t = set_fd fd none t

abbrev pub undo_all : List RestoreAction → Table → Table
undo_all [] t = t
undo_all (r ∷ rs) t = undo_all rs (undo r t)

module _ (os : Os) (laws : TableLaws os) where
  open os use {World}
  open laws use {
    table, fcntl_getfd-table, fcntl_setfd-table, fcntl_setfd-ok, open-fail, open-ok, close-table,
  }

  restore_handle-table :
      (r : RestoreAction) (w : World) → table (restore_handle os r w) ≡ undo r (table w)
  unfolding restore_handle
  restore_handle-table keep_fd w = refl
  restore_handle-table (restore_flags fd flags) w = fun_ext (fcntl_setfd-table w fd flags)
  restore_handle-table (close_opened fd) w = fun_ext (close-table w fd)

  pub restore_all-table :
      (rs : List RestoreAction) (w : World) → table (restore_all os rs w) ≡ undo_all rs (table w)
  unfolding restore_all
  restore_all-table [] w = refl
  restore_all-table (r ∷ rs) w =
      restore_all-table rs (restore_handle os r w) ∙ ap (undo_all rs) (restore_handle-table r w)

  -- With the restore actions so far, the table is that of the beginning.
  abbrev pub Undoes : Table → Applied World → Type 0
  Undoes t s = undo_all s.restores (table s.world) ≡ t

  eq_fd : (x fd : ℤ) → eq_ℤ x fd ≡ true → x ≡ fd
  eq_fd x fd e = eq_of_parts x fd (ground arith)

  -- A handle that was as it is set again, in a table that differs at it only.
  set_back :
      (t : Table) (fd : ℤ) (old new : Option FdFlags)
      → t fd ≡ old
      → set_fd fd old (set_fd fd new t) ≡ t
  set_back t fd old new was = fun_ext (λ x. elim (Bool-cases (eq_ℤ x fd)) [
    | inl e ↦ rw e (sym was ∙ ap t (sym (eq_fd x fd e)))
    | inr e ↦ rw e refl
  ])

  -- What saving makes of the table `t`: restoring brings it back, and nothing is to be restored
  -- where nothing is saved.
  abbrev Saves : Table → World × Option RestoreAction → Type 0
  Saves t (v, none) = table v ≡ t
  Saves t (v, some r) = undo r (table v) ≡ t

  set_fd-open : (t : Table) (fd : ℤ) (f : FdFlags) → is_some (set_fd fd (some f) t fd) ≡ true
  set_fd-open t fd f = let same : eq_ℤ fd fd ≡ true = ground arith in rw same refl

  undo-flags :
      (fd : ℤ) (flags : FdFlags) (t : Table)
      → is_some (t fd) ≡ true
      → undo (restore_flags fd flags) t ≡ set_fd fd (some flags) t
  undo-flags fd flags t open_fd = fun_ext (λ x. rw open_fd refl)

  none_or_some : {f : FdFlags} → none ≡ some f → ⊥
  none_or_some e = ground arith

  marked-Saves :
      (t : Table) (fd : ℤ) (flags new : FdFlags) (r : World × Status)
      → t fd ≡ some flags
      → table r.0 ≡ set_fd fd (some new) t
      → ((e : Errno) → r.1 ≡ fail e → t fd ≡ none)
      → Saves t (marked os fd flags r)
  unfolding marked
  marked-Saves t fd flags new (v, fail e) was now no_fail =
      absurd (none_or_some (sym (no_fail e refl) ∙ was))
  marked-Saves t fd flags new (v, ok _) was now no_fail = rw now (
      undo-flags fd flags (set_fd fd (some new) t) (set_fd-open t fd new)
      ∙ set_back t fd (some flags) (some new) was)

  setfd-open :
      (w : World) (fd : ℤ) (flags new : FdFlags)
      → table w fd ≡ some flags
      → table (os.fcntl_setfd w fd new).0 ≡ set_fd fd (some new) (table w)
  setfd-open w fd flags new was = fun_ext (λ x. fcntl_setfd-table w fd new x ∙ rw was refl)

  mark_cloexec-Saves :
      (w : World) (fd : ℤ) (flags : FdFlags)
      → table w fd ≡ some flags
      → Saves (table w) (mark_cloexec os w fd flags)
  unfolding mark_cloexec
  mark_cloexec-Saves w fd flags was = elim (Bool-cases flags.cloexec) [
    | inl e ↦ simp e refl
    | inr e ↦ simp e (
        let new = record flags { cloexec = true } in
        marked-Saves (table w) fd flags new (os.fcntl_setfd w fd new) was
          (setfd-open w fd flags new was) (fcntl_setfd-ok w fd new))
  ]

  save_flags-Saves :
      (w : World) (fd : ℤ) (r : Result FdFlags)
      → ((flags : FdFlags) → r ≡ ok flags → table w fd ≡ some flags)
      → Saves (table w) (save_flags os w fd r)
  unfolding save_flags
  save_flags-Saves w fd (fail e) known = refl
  save_flags-Saves w fd (ok flags) known = mark_cloexec-Saves w fd flags (known flags refl)

  save_closed-Saves : (w : World) (fd : ℤ) → Saves (table w) (save_closed os w fd)
  unfolding save_closed
  save_closed-Saves w fd = elim (Bool-cases (os.libc_fh w fd)) [
    | inl e ↦
        rw e (save_flags-Saves w fd (os.fcntl_getfd w fd) (λ flags. fcntl_getfd-table w fd flags))
    | inr e ↦ rw e refl
  ]

  closed-Undoes :
      (t : Table) (s : Applied World) (r : World × Option RestoreAction)
      → Undoes t s
      → Saves (table s.world) r
      → Undoes t (closed os s r).0
  unfolding closed
  closed-Undoes t s (v, none) u saves = ap (undo_all s.restores) saves ∙ u
  closed-Undoes t s (v, some r) u saves = ap (undo_all s.restores) saves ∙ u

  saved-Undoes :
      (t : Table) (fd : ℤ) (s : Applied World) (new : ℤ)
      → undo_all s.restores (set_fd new none (table s.world)) ≡ t
      → Undoes t (saved os fd s new (save_opened os s.world new)).0
  unfolding saved save_opened
  saved-Undoes t fd s new u = elim (Bool-cases (os.libc_fh s.world new)) [
    | inl e ↦ rw e u
    | inr e ↦ rw e (ap (undo_all s.restores) (fun_ext (close-table s.world new)) ∙ u)
  ]

  entered-Undoes :
      (t : Table) (s : Applied World) (r : Result Str) → Undoes t s → Undoes t (entered os s r).0
  unfolding entered
  entered-Undoes t s (fail e) u = u
  entered-Undoes t s (ok path) u = u

  opened-Undoes :
      (t : Table) (fd : ℤ) (s : Applied World) (r : World × Result ℤ)
      → Undoes t s
      → ((e : Errno) → r.1 ≡ fail e → table r.0 ≡ table s.world)
      → ((new : ℤ)
          → r.1 ≡ ok new
          → (table s.world new ≡ none)
            × (flags : FdFlags) × (table r.0 ≡ set_fd new (some flags) (table s.world)))
      → Undoes t (opened os fd s r).0
  unfolding opened
  opened-Undoes t fd s (w, fail e) u if_fail if_ok = ap (undo_all s.restores) (if_fail e refl) ∙ u
  opened-Undoes t fd s (w, ok new) u if_fail if_ok =
      let (was, flags, now) = if_ok new refl in
      let back : set_fd new none (table w) ≡ table s.world =
        rw now (set_back (table s.world) new none (some flags) was) in
      saved-Undoes t fd (record s { world = w }) new (ap (undo_all s.restores) back ∙ u)

  apply_action-Undoes :
      (t : Table) (a : Action) (s : Applied World) → Undoes t s → Undoes t (apply_action os a s).0
  unfolding apply_action
  apply_action-Undoes t (spawn_do_close fd) s u =
      closed-Undoes t s (save_closed os s.world fd) u (save_closed-Saves s.world fd)
  apply_action-Undoes t (spawn_do_dup2 fd newfd) s u = elim (Bool-cases (os.libc_fh s.world fd)) [
    | inl e ↦ rw e u
    | inr e ↦ rw e u
  ]
  apply_action-Undoes t (spawn_do_open fd path oflag mode) s u =
      let new_path = merged_path os s.cwd path in
      opened-Undoes t fd s (os.open_noinherit s.world new_path oflag mode) u
        (λ e failed. fun_ext (λ x. open-fail s.world new_path oflag mode e x failed))
        (λ new good.
          (let (was, flags, now) = open-ok s.world new_path oflag mode new good in
            (was, flags, fun_ext now)))
  apply_action-Undoes t (spawn_do_chdir path) s u = u
  apply_action-Undoes t (spawn_do_fchdir fd) s u =
      entered-Undoes t s (os.libc_fh_to_path s.world fd) u

  pub apply_actions-Undoes :
      (t : Table) (actions : List Action) (s : Applied World)
      → Undoes t s
      → Undoes t (apply_actions os actions s).0
  unfolding apply_actions
  apply_actions-Undoes t [] s u = u
  apply_actions-Undoes t (a ∷ rest) s u =
      let (v, good) = apply_action os a s in
      let here = apply_action-Undoes t a s u in
      elim (Bool-cases good) [
        | inl e ↦ rw e (apply_actions-Undoes t rest v here)
        | inr e ↦ rw e here
      ]
