-- ===== src/Network/Select/Laws.antt =====
-- network/select.c: what the calls that select() makes do to the handles that are open.
use os2compat.Prelude.{ℕ, ◌+◌, ◌-◌, ◌==◌, ◌≡◌, if◌then◌else◌, ◌&&◌, Option, none, some, List}
use os2compat.System.{Result, ok, fail}
use os2compat.Network.Poll.{TimeVal}
use os2compat.Network.Select.{FdSetOp}
use os2compat.Network.Select.Os.{Os, Sets}

-- The kinds of handles that select() opens.
pub data HandleKind : Type 0 where
  event_sem mux_sem socket_fd : HandleKind

abbrev pub kind_index : HandleKind → ℕ
kind_index event_sem = 0
kind_index mux_sem = 1
kind_index socket_fd = 2

-- 1 for the handle itself, 0 for every other.
abbrev pub one_of : HandleKind → ℕ → HandleKind → ℕ → ℕ
one_of k h l x = if kind_index k == kind_index l && h == x then 1 else 0

-- The same for a call that may have failed.
abbrev pub made_by : HandleKind → Option ℕ → HandleKind → ℕ → ℕ
made_by k none l x = 0
made_by k (some h) l x = one_of k h l x

abbrev pub made_fd : Result ℕ → HandleKind → ℕ → ℕ
made_fd (fail e) l x = 0
made_fd (ok fd) l x = one_of socket_fd fd l x

abbrev pub Count : Type 0 → Type 0
Count W = W → HandleKind → ℕ → ℕ

-- From `w` to `v`, nothing that is open changes, one more handle is open, or one handle less.
abbrev pub Keeps : {W : Type 0} → Count W → W → W → Type 0
Keeps held w v = (k : HandleKind) (x : ℕ) → held v k x ≡ held w k x

abbrev pub Opens : {W : Type 0} → Count W → W → W → (HandleKind → ℕ → ℕ) → Type 0
Opens held w v gain = (k : HandleKind) (x : ℕ) → held v k x ≡ held w k x + gain k x

abbrev pub Closes : {W : Type 0} → Count W → W → W → (HandleKind → ℕ → ℕ) → Type 0
Closes held w v loss = (k : HandleKind) (x : ℕ) → held v k x ≡ held w k x - loss k x

-- `held w k x` is how often the handle `x` is open: a call that makes or opens a handle adds one
-- where it succeeds, a call that closes one takes one away where the handle is open, and no other
-- call changes what is open.
pub record HandleLaws (os : Os) : Type 0 where
  pub held : Count os.World
  pub dos_create_event_sem-Opens :
      (w : os.World) (name : Option (List ℕ))
      → Opens held w
          (os.dos_create_event_sem w name).0
          (made_by event_sem (os.dos_create_event_sem w name).1)
  pub dos_open_event_sem-Opens :
      (w : os.World) (name : List ℕ)
      → Opens held w
          (os.dos_open_event_sem w name).0
          (made_by event_sem (os.dos_open_event_sem w name).1)
  pub dos_close_event_sem-Closes :
      (w : os.World) (hev : ℕ) → Closes held w (os.dos_close_event_sem w hev) (one_of event_sem hev)
  pub dos_create_mux_wait_sem-Opens :
      (w : os.World)
      → Opens held w
          (os.dos_create_mux_wait_sem w).0
          (made_by mux_sem (os.dos_create_mux_wait_sem w).1)
  pub dos_close_mux_wait_sem-Closes :
      (w : os.World) (hmux : ℕ)
      → Closes held w (os.dos_close_mux_wait_sem w hmux) (one_of mux_sem hmux)
  pub socket-Opens : (w : os.World) → Opens held w (os.socket w).0 (made_fd (os.socket w).1)
  pub close-Closes : (w : os.World) (fd : ℕ) → Closes held w (os.close w fd) (one_of socket_fd fd)
  pub dos_set_npipe_sem-Keeps :
      (w : os.World) (fd : ℕ) (hev : ℕ) (op : FdSetOp)
      → Keeps held w (os.dos_set_npipe_sem w fd hev op).0
  pub dos_query_npipe_sem_state-Keeps :
      (w : os.World) (hev : ℕ) → Keeps held w (os.dos_query_npipe_sem_state w hev).0
  pub dos_reset_event_sem-Keeps :
      (w : os.World) (hev : ℕ) → Keeps held w (os.dos_reset_event_sem w hev)
  pub dos_post_event_sem-Keeps :
      (w : os.World) (hev : ℕ) → Keeps held w (os.dos_post_event_sem w hev)
  pub dos_wait_event_sem-Keeps :
      (w : os.World) (hev : ℕ) → Keeps held w (os.dos_wait_event_sem w hev).0
  pub dos_add_mux_wait_sem-Keeps :
      (w : os.World) (hmux : ℕ) (hev : ℕ) (user : ℕ)
      → Keeps held w (os.dos_add_mux_wait_sem w hmux hev user).0
  pub dos_wait_mux_wait_sem-Keeps :
      (w : os.World) (hmux : ℕ) (ms : Option ℕ)
      → Keeps held w (os.dos_wait_mux_wait_sem w hmux ms).0
  pub std_select-Keeps :
      (w : os.World) (n : ℕ) (sets : Sets) (timeout : Option TimeVal)
      → Keeps held w (os.std_select w n sets timeout).0
  pub interrupted_select-Keeps :
      (w : os.World) (sets : Sets) → Keeps held w (os.interrupted_select w sets).0
  pub std_sleep-Keeps :
      (w : os.World) (timeout : Option TimeVal) → Keeps held w (os.std_sleep w timeout).0
  pub so_cancel-Keeps : (w : os.World) (fd : ℕ) → Keeps held w (os.so_cancel w fd)
  pub begin_thread-Keeps : (w : os.World) → Keeps held w (os.begin_thread w).0
  pub dos_wait_thread-Keeps : (w : os.World) → Keeps held w (os.dos_wait_thread w)
