-- ===== src/Process/Spawn2/Child.antt =====
-- process/spawn2.c: spawn2() with and without a search.
use os2compat.Prelude.{
  ℕ, zero, suc, ◌+◌, ◌-◌, ◌*◌, ◌/◌, ◌%◌, ◌^◌, ◌==◌, if◌then◌else◌, Bool, true, false, not, ◌&&◌,
  ◌||◌, Option, none, some, List, [], ◌∷◌, ◌++◌, ℤ, pos, eq_ℤ, length,
}
use os2compat.System.{Errno, eisdir, enoent, enomem, enosys, Result, ok, fail, Status}
use os2compat.Process.Spawn2.Runtime.{
  Os, FdFlags, Str, Redir, StdFds, no_fds, simple_fds, xredir_fds, SpawnMode, Program,
}
use os2compat.Process.Spawn2.{Machine, os2compat_load_spawn2}

-- `*pfd++ = stdfds[ fd ] == 0 ? fd : stdfds[ fd ]; *pfd++ = fd;`
abbrev pub extend_fd : ℤ → ℕ → Redir
extend_fd given fd = (if eq_ℤ given (pos 0) then pos fd else given, pos fd)

-- Whether `fd` is what a pair is for the child.
unfoldable pub is_target : ℤ → List Redir → Bool
is_target fd [] = false
is_target fd ((_, target) ∷ rs) = eq_ℤ target fd || is_target fd rs

-- `( ulCurMaxFH + 3 ) & ~3`, on an unsigned long, after the fallback to 64
unfoldable pub max_handles : ℕ → ℕ
max_handles found = let n = if found == 0 then 64 else found in (n + 3) % 2 ^ 32 / 4 * 4

-- The first `n` characters, as `strncpy` copies them.
abbrev pub take : ℕ → Str → Str
take zero s = []
take (suc n) [] = []
take (suc n) (c ∷ s) = c ∷ take n s

abbrev pub has_cloexec : Result FdFlags → Bool
has_cloexec (fail e) = true
has_cloexec (ok f) = f.cloexec

module _ (os : Os) where
  open os use {
    World, dlopen, dlsym, dos_load_module, dos_query_proc_addr, malloc, hmalloc, free,
    dos_set_rel_max_fh, libc_fh, fcntl_getfd, fn_is_rel, make_path, max_path, searchenv2_one_file,
    call_wait, call_spawn2,
  }

  -- A handle that is passed on without being asked for.
  unfoldable pub passes_on : World → List Redir → ℕ → Bool
  unfolding is_target
  passes_on w redirs fd =
      libc_fh w (pos fd)
      && not (has_cloexec (fcntl_getfd w (pos fd)))
      && not (is_target (pos fd) redirs)

  -- The loop on the handles after `k` rounds: the pairs behind those that were given.
  unfoldable pub inherited : World → List Redir → ℕ → List Redir
  unfolding passes_on
  inherited w redirs zero = []
  inherited w redirs (suc k) =
      let before = inherited w redirs k in
      if passes_on w redirs k then before ++ ((pos k, pos k) ∷ []) else before

  -- The call, with the array of pairs, and the freeing of that array.
  unfoldable pub spawn_redirs :
      ℕ → SpawnMode → Program → List Redir → World × Option ℕ → World × Result ℕ
  unfolding inherited max_handles
  spawn_redirs f mode p redirs (w, none) = (w, fail enomem)
  spawn_redirs f mode p redirs (w, some block) =
      let all = redirs ++ inherited w redirs (max_handles (dos_set_rel_max_fh w)) in
      let (v, r) = call_spawn2 w f mode p (xredir_fds all) in (free v block, r)

  -- `sizeof( int )`
  abbrev pub sizeof_int : ℕ
  sizeof_int = 4

  -- The block on P_2_XREDIR, up to the freeing of its array.
  unfoldable pub spawn_extended : ℕ → SpawnMode → Program → List Redir → World → World × Result ℕ
  unfolding spawn_redirs
  spawn_extended f mode p redirs w = spawn_redirs f mode p redirs (
      hmalloc w
        ((sizeof_int * (length redirs + max_handles (dos_set_rel_max_fh w)) * 2 + 1) % 2 ^ 32))

  -- The simple mode: the handles become pairs in an array, which is freed at the end.
  unfoldable pub spawn_simple :
      ℕ → SpawnMode → Program → ℤ → ℤ → ℤ → World × Option ℕ → World × Result ℕ
  unfolding spawn_extended
  spawn_simple f mode p a b c (w, none) = (w, fail enomem)
  spawn_simple f mode p a b c (w, some block) =
      let redirs = extend_fd a 0 ∷ (extend_fd b 1 ∷ (extend_fd c 2 ∷ [])) in
      let (v, r) = spawn_extended f mode p redirs w in (free v block, r)

  -- With the function of LIBCx.
  unfoldable pub spawn_with : ℕ → SpawnMode → Program → StdFds → World → World × Result ℕ
  unfolding spawn_simple
  spawn_with f mode p no_fds w = call_spawn2 w f mode p no_fds
  spawn_with f mode p (simple_fds a b c) w =
      if mode.noinherit
      then call_spawn2 w f mode p (simple_fds a b c)
      else spawn_simple f mode p a b c (malloc w (sizeof_int * 3 * 2 + 1))
  spawn_with f mode p (xredir_fds redirs) w =
      if mode.noinherit
      then call_spawn2 w f mode p (xredir_fds redirs)
      else spawn_extended f mode p redirs w

  unfoldable pub spawn_loaded :
      SpawnMode → Program → StdFds → Machine World × Option ℕ → Machine World × Result ℕ
  unfolding spawn_with
  spawn_loaded mode p fds (m, none) = (m, fail enosys)
  spawn_loaded mode p fds (m, some f) =
      let (w, r) = spawn_with f mode p fds m.world in (record m { world = w }, r)

  -- `os2compat_spawn2vpe`
  unfoldable pub os2compat_spawn2vpe :
      SpawnMode → Program → StdFds → Machine World → Machine World × Result ℕ
  unfolding os2compat_load_spawn2 spawn_loaded
  os2compat_spawn2vpe mode p fds m = spawn_loaded mode p fds (os2compat_load_spawn2 os m)

  -- The path that is looked for.
  unfoldable pub spawn_path : Program → Option Str → Str
  spawn_path p none = take (max_path - 1) p.name
  spawn_path p (some cwd) =
      if fn_is_rel p.name then make_path cwd p.name else take (max_path - 1) p.name

  -- EISDIR is hidden.
  abbrev pub hide_eisdir : Errno → Errno
  hide_eisdir eisdir = enoent
  hide_eisdir e = e

  unfoldable pub spawn_found :
      SpawnMode → Program → StdFds → Machine World → Status → Machine World × Result ℕ
  unfolding os2compat_spawn2vpe
  spawn_found mode p fds m (fail e) = (m, fail (hide_eisdir e))
  spawn_found mode p fds m (ok _) = os2compat_spawn2vpe mode p fds m

  -- `os2compat_spawn2ve`
  unfoldable pub os2compat_spawn2ve :
      SpawnMode → Program → StdFds → Machine World → Machine World × Result ℕ
  unfolding spawn_found spawn_path
  os2compat_spawn2ve mode p fds m =
      spawn_found mode p fds m (searchenv2_one_file m.world (spawn_path p p.cwd))
