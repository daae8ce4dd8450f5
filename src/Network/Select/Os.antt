-- ===== src/Network/Select/Os.antt =====
-- network/select.c: what select() calls of OS/2 and of the C runtime.
use os2compat.Prelude.{ℕ, Bool, Option, List}
use os2compat.System.{Errno, Result}
use os2compat.Network.Poll.{FdSet, TimeVal}
use os2compat.Network.Select.{FdSetOp}

-- `NPSS_WSPACE`, `NPSS_RDATA` and the others; NPSS_EOI ends the list of states.
pub data PipeStatus : Type 0 where
  npss_wspace npss_rdata npss_other : PipeStatus

-- `PIPESEMSTATE`
pub record PipeSemState : Type 0 where
  pub status : PipeStatus
  pub key : FdSetOp
  pub avail : ℕ

-- What `DosAddMuxWaitSem` and `DosWaitMuxWaitSem` answer.
pub data MuxAdd : Type 0 where
  added duplicate_handle not_added : MuxAdd

pub data MuxWait : Type 0 where
  mux_posted mux_timeout mux_interrupt mux_other : MuxWait

abbrev pub Sets : Type 0
Sets = FdSetOp → FdSet

-- The calls on a state of the world; a call that makes something gives its handle, or `none`.
pub record Os : Type 1 where
  pub World : Type 0
  -- `DosQueryNPipeInfo`, and the `snprintf` of the semaphore's name from the pipe's name.
  pub pipe_name : World → ℕ → List ℕ
  pub sem_name : List ℕ → FdSetOp → List ℕ
  pub dos_create_event_sem : World → Option (List ℕ) → World × Option ℕ
  pub dos_open_event_sem : World → List ℕ → World × Option ℕ
  pub dos_close_event_sem : World → ℕ → World
  pub dos_set_npipe_sem : World → ℕ → ℕ → FdSetOp → World × Bool
  -- The states up to NPSS_EOI.
  pub dos_query_npipe_sem_state : World → ℕ → World × List PipeSemState
  pub dos_reset_event_sem : World → ℕ → World
  pub dos_post_event_sem : World → ℕ → World
  -- `DosWaitEventSem` with SEM_IMMEDIATE_RETURN: whether it answers 0.
  pub dos_wait_event_sem : World → ℕ → World × Bool
  pub dos_create_mux_wait_sem : World → World × Option ℕ
  pub dos_add_mux_wait_sem : World → ℕ → ℕ → ℕ → World × MuxAdd
  -- The milliseconds, `none` for SEM_INDEFINITE_WAIT.
  pub dos_wait_mux_wait_sem : World → ℕ → Option ℕ → World × MuxWait
  pub dos_close_mux_wait_sem : World → ℕ → World
  -- `_std_select`, the select() of the runtime, with and without sets; the sets come back changed.
  pub std_select : World → ℕ → Sets → Option TimeVal → World × Result ℕ × Sets
  -- The end of a `_std_select` that is running when `so_cancel` is called, on the sets as they are
  -- then.
  pub interrupted_select : World → Sets → World × Sets
  pub std_sleep : World → Option TimeVal → World × Result ℕ
  pub socket : World → World × Result ℕ
  pub close : World → ℕ → World
  pub so_cancel : World → ℕ → World
  pub begin_thread : World → World × Option Errno
  pub dos_wait_thread : World → World
  -- Whether NP_END_SERVER is set in the state of a pipe.
  pub np_end_server : ℕ → Bool
