-- ===== src/Network/Select/Merged.antt =====
-- network/select.c: what the loops behind `mergefds` make of the sets.
use os2compat.Prelude.{
  ℕ, zero, suc, ltb, ◌==◌, ◌+◌, ◌≡◌, refl, ap, ◌∙◌, inl, inr, if◌then◌else◌, is_some, Bool, true,
  false, ◌&&◌, ◌||◌, pos, negsuc, ℤ, eq_ℤ, Bool-cases, arith,
}
use os2compat.Network.Select.{
  SelectType, st_console, st_file, st_pipe, st_socket, FdSetOp, fdset_read, fdset_write,
  fdset_except, same_op, Parms, Asked,
}
use os2compat.Network.Select.Merge.{Merged, merge_op, merge_type, merge_fd, merge_fds}

distribute :
    (e a b c d r : Bool)
    → (e && a || (e && b || (e && c || (e && d || r)))) ≡ (e && (a || b || c || d) || r)
distribute false a b c d r = refl
distribute true true b c d r = refl
distribute true false true c d r = refl
distribute true false false true d r = refl
distribute true false false false d r = refl

pub one_more :
    (p : ℕ → Bool) (i k : ℕ)
    → (eq_ℤ (pos i) (pos k) && p k || ltb i k && p i) ≡ (ltb i (suc k) && p i)
one_more p i k = elim (Bool-cases (i == k)) [
  | inl same ↦ (let e : k ≡ i = ground arith in rw e (ground arith))
  | inr other ↦ ground arith
]

module _ (asked : Asked) (parms : Parms) where
  -- The descriptor is in the set of the type, and the caller has a set for it.
  abbrev pub member : SelectType → FdSetOp → ℤ → Bool
  member t op x = is_some (asked op) && (parms t).fdset op x

  -- It is in the set of some type.
  abbrev pub any_member : FdSetOp → ℤ → Bool
  any_member op x =
      member st_socket op x || member st_pipe op x || member st_file op x || member st_console op x

  -- How often it is in a set.
  abbrev pub one : Bool → ℕ
  one b = if b then 1 else 0

  merge_op-sets :
      (i : ℕ) (t : SelectType) (op : FdSetOp) (m : Merged) (o : FdSetOp) (x : ℤ)
      → (merge_op asked parms i t op m).sets o x
        ≡ (same_op o op && eq_ℤ x (pos i) && member t op (pos i) || m.sets o x)
  unfolding merge_op
  merge_op-sets i t op m o x = ground arith

  merge_op-n :
      (i : ℕ) (t : SelectType) (op : FdSetOp) (m : Merged)
      → (merge_op asked parms i t op m).n ≡ m.n + one (member t op (pos i))
  unfolding merge_op
  merge_op-n i t op m = ground arith

  merge_type-sets :
      (i : ℕ) (t : SelectType) (m : Merged) (o : FdSetOp) (x : ℤ)
      → (merge_type asked parms i t m).sets o x
        ≡ (eq_ℤ x (pos i) && member t o (pos i) || m.sets o x)
  unfolding merge_type
  merge_type-sets i t m fdset_read x = ground arith
  merge_type-sets i t m fdset_write x = ground arith
  merge_type-sets i t m fdset_except x = ground arith

  -- All types and operations of one descriptor.
  abbrev pub count_type : SelectType → ℤ → ℕ
  count_type t x =
      one (member t fdset_read x) + one (member t fdset_write x) + one (member t fdset_except x)

  abbrev pub count_fd : ℤ → ℕ
  count_fd x =
      count_type st_console x + count_type st_file x + count_type st_pipe x + count_type st_socket x

  merge_type-n :
      (i : ℕ) (t : SelectType) (m : Merged)
      → (merge_type asked parms i t m).n ≡ m.n + count_type t (pos i)
  unfolding merge_type
  merge_type-n i t m = ground arith

  -- Some type other than the socket's has it, from the first type on.
  merge_fd-sets :
      (i : ℕ) (m : Merged) (o : FdSetOp) (x : ℤ)
      → (merge_fd asked parms i m).sets o x ≡ (eq_ℤ x (pos i) && any_member o (pos i) || m.sets o x)
  unfolding merge_fd
  merge_fd-sets i m o x =
      let a = merge_type asked parms i st_console m in
      let b = merge_type asked parms i st_file a in
      let c = merge_type asked parms i st_pipe b in
      rw
        (
          merge_type-sets i st_socket c o x,
          merge_type-sets i st_pipe b o x,
          merge_type-sets i st_file a o x,
          merge_type-sets i st_console m o x,
        )
        (distribute (eq_ℤ x (pos i)) (member st_socket o (pos i)) (member st_pipe o (pos i))
          (member st_file o (pos i)) (member st_console o (pos i)) (m.sets o x))

  merge_fd-n : (i : ℕ) (m : Merged) → (merge_fd asked parms i m).n ≡ m.n + count_fd (pos i)
  unfolding merge_fd
  merge_fd-n i m =
      let a = merge_type asked parms i st_console m in
      let b = merge_type asked parms i st_file a in
      let c = merge_type asked parms i st_pipe b in
      omega (
        arith,
        merge_type-n i st_socket c,
        merge_type-n i st_pipe b,
        merge_type-n i st_file a,
        merge_type-n i st_console m,
      )

  -- Among the first `k` descriptors, and so the number of times.
  abbrev pub count_fds : ℕ → ℕ
  count_fds zero = 0
  count_fds (suc k) = count_fds k + count_fd (pos k)

  merge_fds-n : (k : ℕ) → (merge_fds asked parms k).n ≡ count_fds k
  unfolding merge_fds
  merge_fds-n zero = refl
  merge_fds-n (suc k) =
      merge_fd-n k (merge_fds asked parms k) ∙ ap (λ n. n + count_fd (pos k)) (merge_fds-n k)

  pub merge_fds-sets :
      (k : ℕ) (o : FdSetOp) (i : ℕ)
      → (merge_fds asked parms k).sets o (pos i) ≡ (ltb i k && any_member o (pos i))
  unfolding merge_fds
  merge_fds-sets zero o i = ground arith
  merge_fds-sets (suc k) o i =
      merge_fd-sets k (merge_fds asked parms k) o (pos i)
      ∙ (ap (λ r. eq_ℤ (pos i) (pos k) && any_member o (pos k) || r) (merge_fds-sets k o i)
          ∙ one_more (λ j. any_member o (pos j)) i k)

  pub merge_fds-neg :
      (k : ℕ) (o : FdSetOp) (n : ℕ) → (merge_fds asked parms k).sets o (negsuc n) ≡ false
  unfolding merge_fds
  merge_fds-neg zero o n = refl
  merge_fds-neg (suc k) o n =
      ground (arith, merge_fd-sets k (merge_fds asked parms k) o (negsuc n), merge_fds-neg k o n)
