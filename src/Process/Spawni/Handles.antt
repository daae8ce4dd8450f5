-- ===== src/Process/Spawni/Handles.antt =====
-- process/posix_spawn/spawni.c: the handles of the parent, through all of the worker.
use os2compat.Prelude.{
  ℕ, ◌≡◌, refl, ap, ◌∙◌, inl, inr, if◌then◌else◌, Bool, true, false, Option, none, some, List, [],
  ◌∷◌, ℤ, Bool-cases,
}
use os2compat.System.{ok, fail, Status}
use os2compat.Process.Spawn2.Runtime.{
  Os, libcn0, libc066, libcx0, Str, StdFds, no_fds, simple_fds, xredir_fds, SpawnMode, Program,
  Redir, Answer, started, minus_one, error_number,
}
use os2compat.Process.Spawn2.{
  Cached, not_tried, tried, Machine, or_libc066, open_libc, open_libcx, load_libcx_sym,
  spawn2_target, os2compat_load_spawn2,
}
use os2compat.Process.Spawn2.Child.{
  extend_fd, spawn_redirs, spawn_extended, spawn_simple, spawn_with, spawn_found,
  os2compat_spawn2vpe, os2compat_spawn2ve,
}
use os2compat.Process.Spawn2.Child.{spawn_loaded as spawn2_loaded}
use os2compat.Process.Spawni.{
  Action, AttrFlags, unsupported, SpawnStatics, Applied, restore_all, apply_actions, spawn_child,
  spawn_if_good, spawn_applied, spawn_restoring, spawn_redirecting, spawn_actions, load_libc_sym,
  look_for_posix_spawn, load_posix_spawn, posix_result, posix_fallback, spawn_supported,
  spawn_loaded, os2compat_spawni,
}
use os2compat.Process.Spawni.Restored.{
  Table, TableLaws, undo_all, Undoes, restore_all-table, apply_actions-Undoes,
}

module _ (os : Os) (laws : TableLaws os) where
  open os use {World}
  open laws use {
    table, dlopen-table, malloc-table, hmalloc-table, free-table, call_spawn2-table,
    call_posix_spawn-table,
  }

  open_libcx-table : (w : World) (c : Cached) → table (open_libcx os w c).0 ≡ table w
  unfolding open_libcx
  open_libcx-table w (tried handle) = refl
  open_libcx-table w not_tried = dlopen-table w libcx0

  spawn2_target-table :
      (m : Machine World) (c : Cached) → table (spawn2_target os m c).0.world ≡ table m.world
  unfolding spawn2_target load_libcx_sym
  spawn2_target-table m (tried f) = refl
  spawn2_target-table m not_tried = open_libcx-table m.world m.statics.libcx_handle

  spawn_redirs-table :
      (f : ℕ) (mode : SpawnMode) (p : Program) (redirs : List Redir) (r : World × Option ℕ)
      → table (spawn_redirs os f mode p redirs r).0 ≡ table r.0
  unfolding spawn_redirs
  spawn_redirs-table f mode p redirs (w, none) = refl
  spawn_redirs-table f mode p redirs (w, some block) =
      free-table _ block ∙ call_spawn2-table w f mode p _

  spawn_extended-table :
      (f : ℕ) (mode : SpawnMode) (p : Program) (redirs : List Redir) (w : World)
      → table (spawn_extended os f mode p redirs w).0 ≡ table w
  unfolding spawn_extended
  spawn_extended-table f mode p redirs w =
      spawn_redirs-table f mode p redirs (os.hmalloc w _) ∙ hmalloc-table w _

  spawn_simple-table :
      (f : ℕ) (mode : SpawnMode) (p : Program) (a b c : ℤ) (r : World × Option ℕ)
      → table (spawn_simple os f mode p a b c r).0 ≡ table r.0
  unfolding spawn_simple
  spawn_simple-table f mode p a b c (w, none) = refl
  spawn_simple-table f mode p a b c (w, some block) =
      free-table _ block
      ∙ spawn_extended-table f mode p (extend_fd a 0 ∷ (extend_fd b 1 ∷ (extend_fd c 2 ∷ []))) w

  spawn_with-table :
      (f : ℕ) (mode : SpawnMode) (p : Program) (fds : StdFds) (w : World)
      → table (spawn_with os f mode p fds w).0 ≡ table w
  unfolding spawn_with
  spawn_with-table f mode p no_fds w = call_spawn2-table w f mode p no_fds
  spawn_with-table f mode p (simple_fds a b c) w = elim (Bool-cases mode.noinherit) [
    | inl e ↦ simp e (call_spawn2-table w f mode p (simple_fds a b c))
    | inr e ↦ simp e (spawn_simple-table f mode p a b c (os.malloc w _) ∙ malloc-table w _)
  ]
  spawn_with-table f mode p (xredir_fds redirs) w = elim (Bool-cases mode.noinherit) [
    | inl e ↦ simp e (call_spawn2-table w f mode p (xredir_fds redirs))
    | inr e ↦ simp e (spawn_extended-table f mode p redirs w)
  ]

  spawn2_loaded-table :
      (mode : SpawnMode) (p : Program) (fds : StdFds) (r : Machine World × Option ℕ)
      → table (spawn2_loaded os mode p fds r).0.world ≡ table r.0.world
  unfolding spawn2_loaded
  spawn2_loaded-table mode p fds (m, none) = refl
  spawn2_loaded-table mode p fds (m, some f) = spawn_with-table f mode p fds m.world

  os2compat_spawn2vpe-table :
      (mode : SpawnMode) (p : Program) (fds : StdFds) (m : Machine World)
      → table (os2compat_spawn2vpe os mode p fds m).0.world ≡ table m.world
  unfolding os2compat_spawn2vpe os2compat_load_spawn2
  os2compat_spawn2vpe-table mode p fds m =
      spawn2_loaded-table mode p fds (os2compat_load_spawn2 os m)
      ∙ spawn2_target-table m m.statics.libcx_spawn2

  spawn_found-table :
      (mode : SpawnMode) (p : Program) (fds : StdFds) (m : Machine World) (r : Status)
      → table (spawn_found os mode p fds m r).0.world ≡ table m.world
  unfolding spawn_found
  spawn_found-table mode p fds m (fail e) = refl
  spawn_found-table mode p fds m (ok _) = os2compat_spawn2vpe-table mode p fds m

  spawn_child-table :
      (use_path : Bool) (p : Program) (cwd : Str) (fds : StdFds) (m : Machine World)
      → table (spawn_child os use_path p cwd fds m).0.world ≡ table m.world
  unfolding spawn_child os2compat_spawn2ve
  spawn_child-table true p cwd fds m = os2compat_spawn2vpe-table _ _ fds m
  spawn_child-table false p cwd fds m = spawn_found-table _ _ fds m _

  spawn_if_good-table :
      (use_path : Bool) (p : Program) (cwd : Str) (fds : StdFds) (m : Machine World) (good : Bool)
      → table (spawn_if_good os use_path p cwd fds m good).0.world ≡ table m.world
  unfolding spawn_if_good
  spawn_if_good-table use_path p cwd fds m true = spawn_child-table use_path p cwd fds m
  spawn_if_good-table use_path p cwd fds m false = refl

  spawn_applied-table :
      (t : Table) (use_path : Bool) (p : Program) (fds_block restore_block : ℕ) (m : Machine World)
      (r : Applied World × Bool)
      → Undoes os laws t r.0
      → table (spawn_applied os use_path p fds_block restore_block m r).0.world ≡ t
  unfolding spawn_applied
  spawn_applied-table t use_path p fds_block restore_block m (s, good) u =
      let n =
        (spawn_if_good os use_path p s.cwd (xredir_fds s.redirs) (record m { world = s.world })
          good).0 in
      let back = restore_all os s.restores n.world in
      free-table (os.free back restore_block) fds_block
      ∙ (free-table back restore_block
          ∙ (restore_all-table os laws s.restores n.world
              ∙ (ap (undo_all s.restores) (
                    spawn_if_good-table use_path p s.cwd (xredir_fds s.redirs)
                      (record m { world = s.world }) good)
                  ∙ u)))

  spawn_restoring-table :
      (use_path : Bool) (p : Program) (actions : List Action) (fds_block : ℕ) (m : Machine World)
      (r : World × Option ℕ)
      → table (spawn_restoring os use_path p actions fds_block m r).0.world ≡ table r.0
  unfolding spawn_restoring
  spawn_restoring-table use_path p actions fds_block m (w, none) = free-table w fds_block
  spawn_restoring-table use_path p actions fds_block m (w, some restore_block) =
      let s : Applied World = record { world = w; cwd = []; restores = []; redirs = [] } in
      spawn_applied-table (table w) use_path p fds_block restore_block m
        (apply_actions os actions s) (apply_actions-Undoes os laws (table w) actions s refl)

  spawn_redirecting-table :
      (use_path : Bool) (p : Program) (actions : List Action) (m : Machine World)
      (r : World × Option ℕ)
      → table (spawn_redirecting os use_path p actions m r).0.world ≡ table r.0
  unfolding spawn_redirecting
  spawn_redirecting-table use_path p actions m (w, none) = refl
  spawn_redirecting-table use_path p actions m (w, some fds_block) =
      spawn_restoring-table use_path p actions fds_block m (os.hmalloc w _) ∙ hmalloc-table w _

  spawn_actions-table :
      (use_path : Bool) (p : Program) (actions : Option (List Action)) (m : Machine World)
      → table (spawn_actions os use_path p actions m).0.world ≡ table m.world
  unfolding spawn_actions
  spawn_actions-table use_path p none m = spawn_child-table use_path p [] no_fds m
  spawn_actions-table use_path p (some actions) m =
      spawn_redirecting-table use_path p actions m (os.hmalloc m.world _) ∙ hmalloc-table m.world _

  or_libc066-table : (r : World × Option ℕ) → table (or_libc066 os r).0 ≡ table r.0
  or_libc066-table (w, none) = dlopen-table w libc066
  or_libc066-table (w, some handle) = refl

  open_libc-table : (w : World) (c : Cached) → table (open_libc os w c).0 ≡ table w
  unfolding open_libc
  open_libc-table w (tried handle) = refl
  open_libc-table w not_tried = or_libc066-table (os.dlopen w libcn0) ∙ dlopen-table w libcn0

  look_for_posix_spawn-table :
      (w : World) (st : SpawnStatics) (c : Cached)
      → table (look_for_posix_spawn os w st c).0 ≡ table w
  unfolding look_for_posix_spawn load_libc_sym
  look_for_posix_spawn-table w st (tried f) = refl
  look_for_posix_spawn-table w st not_tried =
      let (v, handle) = open_libc os w st.libc_handle in
      open_libc-table v (tried handle) ∙ open_libc-table w st.libc_handle

  posix_result-table : (r : World × Answer) → table (posix_result os r).0 ≡ table r.0
  posix_result-table (w, started pid) = refl
  posix_result-table (w, minus_one) = refl
  posix_result-table (w, error_number e) = refl

  posix_fallback-table :
      (use_path : Bool) (p : Program) (r : World × SpawnStatics × Option (ℕ × ℕ))
      → table (posix_fallback os use_path p r).0 ≡ table r.0
  unfolding posix_fallback
  posix_fallback-table use_path p (w, st, none) = refl
  posix_fallback-table use_path p (w, st, some (f, g)) =
      posix_result-table (os.call_posix_spawn w (if use_path then g else f) p)
      ∙ call_posix_spawn-table w (if use_path then g else f) p

  spawn_supported-table :
      (use_path : Bool) (p : Program) (actions : Option (List Action)) (attr : Option AttrFlags)
      (m : Machine World)
      → table (spawn_supported os use_path p actions attr m).0.world ≡ table m.world
  spawn_supported-table use_path p actions attr m = elim (Bool-cases (unsupported attr)) [
    | inl e ↦ rw e refl
    | inr e ↦ rw e (spawn_actions-table use_path p actions m)
  ]

  spawn_loaded-table :
      (use_path : Bool) (p : Program) (actions : Option (List Action)) (attr : Option AttrFlags)
      (st : SpawnStatics) (r : Machine World × Option ℕ)
      → table (spawn_loaded os use_path p actions attr st r).0.world ≡ table r.0.world
  unfolding spawn_loaded load_posix_spawn
  spawn_loaded-table use_path p actions attr st (m, some f) =
      spawn_supported-table use_path p actions attr m
  spawn_loaded-table use_path p actions attr st (m, none) =
      posix_fallback-table use_path p (load_posix_spawn os m.world st)
      ∙ look_for_posix_spawn-table m.world st st.libc_posix_spawn

  -- Where the calls change the table of handles as TableLaws says: whatever the actions are and
  -- wherever the worker fails, its caller has the same handles with the same flags afterwards:
  -- every flag that an action sets is set back, and every handle that an action opens is closed.
  pub os2compat_spawni-table :
      (use_path : Bool) (p : Program) (actions : Option (List Action)) (attr : Option AttrFlags)
      (m : Machine World) (st : SpawnStatics)
      → table (os2compat_spawni os use_path p actions attr m st).0.world ≡ table m.world
  unfolding os2compat_spawni os2compat_load_spawn2
  os2compat_spawni-table use_path p actions attr m st =
      spawn_loaded-table use_path p actions attr st (os2compat_load_spawn2 os m)
      ∙ spawn2_target-table m m.statics.libcx_spawn2
