-- ===== src/Network/Select/Sorted.antt =====
-- network/select.c: what the loop that sorts the descriptors leaves in the sets of each type.
use os2compat.Prelude.{
  ◌<◌, ◌↔◌, ℕ, zero, suc, ltb, ◌≡◌, refl, ap, ◌∙◌, inl, inr, if◌then◌else◌, is_some, Bool, true,
  false, ◌&&◌, ◌||◌, Option, none, some, pos, ℤ, eq_ℤ, Bool-cases, lt_or_le, arith,
}
use os2compat.System.{Result, ok, fail, Status, FileKind, Handles}
use os2compat.Network.Select.{
  SelectType, st_console, st_file, st_pipe, st_socket, same_type, SelectParm, FdSetOp, fdset_read,
  fdset_write, fdset_except, same_op, Parms, set_parm, Asked, is_asked, type_of_kind, accepts,
  add_fd, put_fd, setfd, setfd_if, categorize_one, categorize,
}
use os2compat.Network.Select.Merged.{one_more}

abbrev pub is_ok : Status → Bool
is_ok (ok _) = true
is_ok (fail e) = false

-- The type that is found is `t`, and it keeps the operation.
abbrev pub kept_as : FdSetOp → SelectType → Option SelectType → Bool
kept_as op t none = false
kept_as op t (some u) = accepts u op && same_type t u

put_fd-is_ok :
    (i : ℕ) (op : FdSetOp) (parms : Parms) (u : Option SelectType)
    → is_ok (put_fd i op parms u).1 ≡ is_some u
unfolding put_fd
put_fd-is_ok i op parms none = refl
put_fd-is_ok i op parms (some u) = refl

pub add_fd-sets :
    (i : ℕ) (op : FdSetOp) (p : SelectParm) (o : FdSetOp) (x : ℤ)
    → (add_fd i op p).fdset o x ≡ (same_op o op && eq_ℤ x (pos i) || p.fdset o x)
unfolding add_fd
add_fd-sets i op p o x = ground arith

set_parm-sets :
    (i : ℕ) (op : FdSetOp) (parms : Parms) (u t : SelectType) (o : FdSetOp) (x : ℤ)
    → (set_parm u (add_fd i op (parms u)) parms t).fdset o x
      ≡ (same_op o op && eq_ℤ x (pos i) && same_type t u || (parms t).fdset o x)
unfolding add_fd
set_parm-sets i op parms st_console st_console o x = ground arith
set_parm-sets i op parms st_file st_file o x = ground arith
set_parm-sets i op parms st_pipe st_pipe o x = ground arith
set_parm-sets i op parms st_socket st_socket o x = ground arith
set_parm-sets i op parms u t o x = ground arith

put_fd-sets :
    (i : ℕ) (op : FdSetOp) (parms : Parms) (u : Option SelectType) (t : SelectType) (o : FdSetOp)
    (x : ℤ)
    → ((put_fd i op parms u).0 t).fdset o x
      ≡ (same_op o op && eq_ℤ x (pos i) && kept_as op t u || (parms t).fdset o x)
unfolding put_fd
put_fd-sets i op parms none t o x = ground arith
put_fd-sets i op parms (some u) t o x = elim (Bool-cases (accepts u op)) [
  | inl e ↦ rw e (set_parm-sets i op parms u t o x)
  | inr e ↦ rw e (ground arith)
]

three_ops :
    (p : FdSetOp → Bool) (o : FdSetOp) (here r : Bool)
    → (same_op o fdset_except && here && p fdset_except
        || (same_op o fdset_write && here && p fdset_write
            || (same_op o fdset_read && here && p fdset_read || r)))
      ≡ (here && p o || r)
three_ops p fdset_read here r = refl
three_ops p fdset_write here r = refl
three_ops p fdset_except here r = refl

module _ (server : ℕ → Bool) (h : Handles) (asked : Asked) where
  -- The type of a descriptor for an operation.
  abbrev pub type_at : ℕ → FdSetOp → Option SelectType
  type_at i op = elim (h.fstat (pos i)) [
    | fail e ↦ none
    | ok kind ↦ type_of_kind server h (pos i) op kind
  ]

  -- Nothing is asked, or the type is known.
  abbrev pub typed : ℕ → FdSetOp → Bool
  typed i op = if is_asked asked op (pos i) then is_some (type_at i op) else true

  -- It is asked, and goes to the sets of `t`.
  abbrev pub sorted : SelectType → FdSetOp → ℕ → Bool
  sorted t op i = is_asked asked op (pos i) && kept_as op t (type_at i op)

  setfd-type :
      (i : ℕ) (op : FdSetOp) (parms : Parms) (s : Result FileKind)
      → h.fstat (pos i) ≡ s
      → (is_ok (setfd server h i parms op).1 ≡ is_some (type_at i op))
        × ((t : SelectType) (o : FdSetOp) (x : ℤ)
            → ((setfd server h i parms op).0 t).fdset o x ≡ (
                same_op o op && eq_ℤ x (pos i) && kept_as op t (type_at i op)
                || (parms t).fdset o x))
  unfolding setfd
  setfd-type i op parms (fail e) p =
      (rw (p, setfd, type_at) refl, λ t o x. rw (p, setfd) (ground arith))
  setfd-type i op parms (ok kind) p =
      let u = type_of_kind server h (pos i) op kind in
      (
        rw (p, setfd, type_at) (put_fd-is_ok i op parms u),
        λ t o x. rw (p, setfd, type_at) (put_fd-sets i op parms u t o x),
      )

  setfd_if-is_ok :
      (i : ℕ) (op : FdSetOp) (r : Parms × Status)
      → is_ok (setfd_if server h asked i op r).1 ≡ (is_ok r.1 && typed i op)
  unfolding setfd_if
  setfd_if-is_ok i op (parms, fail e) = refl
  setfd_if-is_ok i op (parms, ok _) = elim (Bool-cases (is_asked asked op (pos i))) [
    | inl e ↦ rw e (setfd-type i op parms (h.fstat (pos i)) refl).0
    | inr e ↦ rw e refl
  ]

  setfd_if-sets :
      (i : ℕ) (op : FdSetOp) (r : Parms × Status) (t : SelectType) (o : FdSetOp) (x : ℤ)
      → ((setfd_if server h asked i op r).0 t).fdset o x
        ≡ (is_ok r.1 && (same_op o op && eq_ℤ x (pos i) && sorted t op i) || (r.0 t).fdset o x)
  unfolding setfd_if
  setfd_if-sets i op (parms, fail e) t o x = refl
  setfd_if-sets i op (parms, ok _) t o x = elim (Bool-cases (is_asked asked op (pos i))) [
    | inl e ↦ rw e ((setfd-type i op parms (h.fstat (pos i)) refl).1 t o x)
    | inr e ↦ rw e (ground arith)
  ]

  -- All that is asked of a descriptor has a type.
  abbrev pub all_typed : ℕ → Bool
  all_typed i = typed i fdset_read && typed i fdset_write && typed i fdset_except

  categorize_one-is_ok :
      (i : ℕ) (r : Parms × Status)
      → is_ok (categorize_one server h asked i r).1 ≡ (is_ok r.1 && all_typed i)
  unfolding categorize_one
  categorize_one-is_ok i r =
      let a = setfd_if server h asked i fdset_read r in
      let b = setfd_if server h asked i fdset_write a in
      ground (
        arith,
        setfd_if-is_ok i fdset_except b,
        setfd_if-is_ok i fdset_write a,
        setfd_if-is_ok i fdset_read r,
      )

  categorize_one-sets :
      (i : ℕ) (r : Parms × Status) (t : SelectType) (o : FdSetOp) (x : ℤ)
      → is_ok (categorize_one server h asked i r).1 ≡ true
      → ((categorize_one server h asked i r).0 t).fdset o x
        ≡ (eq_ℤ x (pos i) && sorted t o i || (r.0 t).fdset o x)
  unfolding categorize_one
  categorize_one-sets i r t o x good =
      let a = setfd_if server h asked i fdset_read r in
      let b = setfd_if server h asked i fdset_write a in
      let ok_b : is_ok b.1 ≡ true = ground (arith, setfd_if-is_ok i fdset_except b) in
      let ok_a : is_ok a.1 ≡ true = ground (arith, setfd_if-is_ok i fdset_write a) in
      let ok_r : is_ok r.1 ≡ true = ground (arith, setfd_if-is_ok i fdset_read r) in
      rw
        (
          setfd_if-sets i fdset_except b t o x,
          ok_b,
          setfd_if-sets i fdset_write a t o x,
          ok_a,
          setfd_if-sets i fdset_read r t o x,
          ok_r,
        )
        (three_ops (λ op. sorted t op i) o (eq_ℤ x (pos i)) ((r.0 t).fdset o x))

  categorize-is_ok :
      (k : ℕ)
      → is_ok (categorize server h asked (suc k)).1
        ≡ (is_ok (categorize server h asked k).1 && all_typed k)
  unfolding categorize
  categorize-is_ok k = categorize_one-is_ok k (categorize server h asked k)

  pub categorize-sorted :
      (k : ℕ)
      → is_ok (categorize server h asked k).1 ≡ true
      → (t : SelectType) (o : FdSetOp) (i : ℕ)
      → ((categorize server h asked k).0 t).fdset o (pos i) ≡ (ltb i k && sorted t o i)
  unfolding categorize
  categorize-sorted zero good t o i = ground arith
  categorize-sorted (suc k) good t o i =
      let before : is_ok (categorize server h asked k).1 ≡ true =
        ground (arith, categorize-is_ok k) in
      categorize_one-sets k (categorize server h asked k) t o (pos i) good
      ∙ (ap (λ r. eq_ℤ (pos i) (pos k) && sorted t o k || r) (categorize-sorted k before t o i)
          ∙ one_more (sorted t o) i k)

  pub categorize-typed :
      (k : ℕ) → is_ok (categorize server h asked k).1 ≡ true → (i : ℕ) → i < k → all_typed i ≡ true
  categorize-typed zero good i lt = ground arith
  categorize-typed (suc k) good i lt = elim (lt_or_le i k) [
    | inl before ↦ categorize-typed k (ground (arith, categorize-is_ok k)) i before
    | inr last ↦ (let same : i ≡ k = omega arith in rw same (ground (arith, categorize-is_ok k)))
  ]

  categorize-total :
      (k : ℕ)
      → ((i : ℕ) → i < k → all_typed i ≡ true)
      → is_ok (categorize server h asked k).1 ≡ true
  unfolding categorize
  categorize-total zero all = refl
  categorize-total (suc k) all =
      let good = categorize-total k (λ i lt. all i (omega arith)) in
      let now = all k (omega arith) in ground (arith, categorize-is_ok k)

  pub categorize-accepts :
      (k : ℕ)
      → is_ok (categorize server h asked k).1 ≡ true ↔ ((i : ℕ) → i < k → all_typed i ≡ true)
  categorize-accepts k = (categorize-typed k, categorize-total k)
