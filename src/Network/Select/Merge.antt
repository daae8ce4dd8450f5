-- ===== src/Network/Select/Merge.antt =====
-- network/select.c: the answer of select(), made from the sets of all kinds of descriptors.
use os2compat.Prelude.{ℕ, zero, suc, ◌+◌, if◌then◌else◌, is_some, Bool, ◌&&◌, none, some, pos}
use os2compat.Network.Poll.{fd_set, fd_zero}
use os2compat.Network.Select.{
  SelectType, st_console, st_file, st_pipe, st_socket, FdSetOp, fdset_read, fdset_write,
  fdset_except, same_op, Parms, Asked,
}
use os2compat.Network.Select.Os.{Sets}

-- `n` and the caller's sets; a set that is NULL is not read.
pub record Merged : Type 0 where
  pub n : ℕ
  pub sets : Sets

module _ (asked : Asked) (parms : Parms) where
  unfoldable pub merge_op : ℕ → SelectType → FdSetOp → Merged → Merged
  merge_op i t op m =
      if is_some (asked op) && (parms t).fdset op (pos i)
      then record {
        n = m.n + 1;
        sets = λ o. if same_op o op then fd_set (pos i) (m.sets op) else m.sets o;
      }
      else m

  -- The body of the inner loop.
  unfoldable pub merge_type : ℕ → SelectType → Merged → Merged
  unfolding merge_op
  merge_type i t m =
      merge_op i t fdset_except (merge_op i t fdset_write (merge_op i t fdset_read m))

  -- The inner loop, over all types.
  unfoldable pub merge_fd : ℕ → Merged → Merged
  merge_fd i m =
      merge_type i st_socket
        (merge_type i st_pipe (merge_type i st_file (merge_type i st_console m)))

  -- The outer loop after `k` rounds.
  unfoldable pub merge_fds : ℕ → Merged
  merge_fds zero = record { n = 0; sets = λ o. fd_zero }
  merge_fds (suc k) = merge_fd k (merge_fds k)

-- The caller's sets, where they are not NULL.
abbrev pub given_back : Asked → Sets → Asked
given_back asked sets op = if is_some (asked op) then some (sets op) else none

-- What follows the label `mergefds`; `events` is that `n` is not 0 there.
unfoldable pub merge : Asked → ℕ → Parms → Bool → ℕ × Asked
unfolding merge_fds
merge asked nfds parms events =
    if events
    then (let m = merge_fds asked parms nfds in (m.n, given_back asked m.sets))
    else (0, given_back asked (λ o. fd_zero))
