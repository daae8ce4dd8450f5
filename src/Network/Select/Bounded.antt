-- ===== src/Network/Select/Bounded.antt =====
-- network/select.c: the bounds that the loop which sorts the descriptors keeps of its sets.
use os2compat.Prelude.{
  ◌↔◌, ltb, ◌&&◌, ℕ, zero, suc, ◌≤◌, ◌<◌, ◌≡◌, refl, inl, inr, Bool, true, Option, none, some, pos,
  Bool-cases, arith,
}
use os2compat.System.{Result, ok, fail, Status, FileKind, Handles}
use os2compat.Network.Select.{
  SelectType, same_type, SelectParm, FdSetOp, fdset_read, fdset_write, fdset_except, Parms,
  set_parm, Asked, is_asked, type_of_kind, accepts, add_fd, put_fd, setfd, setfd_if, categorize_one,
  categorize,
}
use os2compat.Network.Select.Sorted.{
  is_ok, sorted, all_typed, categorize-sorted, categorize-accepts,
}

-- A set has no descriptor at or above its bound, which is at most the bound of all sets, and that
-- is at most `k`.
abbrev pub Bounded : ℕ → SelectParm → Type 0
Bounded k p =
    (p.nmaxfds ≤ k)
    × ((o : FdSetOp) → (p.nfds o ≤ p.nmaxfds) × ((i : ℕ) → p.fdset o (pos i) ≡ true → i < p.nfds o))

abbrev pub AllBounded : ℕ → Parms → Type 0
AllBounded k parms = (t : SelectType) → Bounded k (parms t)

add_fd-Bounded :
    (k i : ℕ) (op : FdSetOp) (p : SelectParm) → i < k → Bounded k p → Bounded k (add_fd i op p)
unfolding add_fd
add_fd-Bounded k i op p lt (le, all) = (
  ground arith,
  λ o. (let (low, mem) = all o in (ground arith, λ j q. (let m = mem j in ground arith))),
)

set_parm-Bounded :
    (k : ℕ) (u : SelectType) (p : SelectParm) (parms : Parms)
    → Bounded k p
    → AllBounded k parms
    → AllBounded k (set_parm u p parms)
set_parm-Bounded k u p parms b all t = elim (Bool-cases (same_type t u)) [
  | inl e ↦ rw e b
  | inr e ↦ rw e (all t)
]

put_fd-Bounded :
    (k i : ℕ) (op : FdSetOp) (parms : Parms) (u : Option SelectType)
    → i < k
    → AllBounded k parms
    → AllBounded k (put_fd i op parms u).0
unfolding put_fd
put_fd-Bounded k i op parms none lt all = all
put_fd-Bounded k i op parms (some u) lt all = elim (Bool-cases (accepts u op)) [
  | inl e ↦ rw e (
      set_parm-Bounded k u (add_fd i op (parms u)) parms
        (add_fd-Bounded k i op (parms u) lt (all u)) all)
  | inr e ↦ rw e all
]

module _ (server : ℕ → Bool) (h : Handles) (asked : Asked) where
  setfd-Bounded :
      (k i : ℕ) (op : FdSetOp) (parms : Parms) (s : Result FileKind)
      → h.fstat (pos i) ≡ s
      → i < k
      → AllBounded k parms
      → AllBounded k (setfd server h i parms op).0
  unfolding setfd
  setfd-Bounded k i op parms (fail e) p lt all = rw (p, setfd) all
  setfd-Bounded k i op parms (ok kind) p lt all =
      rw (p, setfd) (put_fd-Bounded k i op parms (type_of_kind server h (pos i) op kind) lt all)

  setfd_if-Bounded :
      (k i : ℕ) (op : FdSetOp) (r : Parms × Status)
      → i < k
      → AllBounded k r.0
      → AllBounded k (setfd_if server h asked i op r).0
  unfolding setfd_if
  setfd_if-Bounded k i op (parms, fail e) lt all = all
  setfd_if-Bounded k i op (parms, ok _) lt all = elim (Bool-cases (is_asked asked op (pos i))) [
    | inl e ↦ rw e (setfd-Bounded k i op parms (h.fstat (pos i)) refl lt all)
    | inr e ↦ rw e all
  ]

  pub categorize-Bounded : (k : ℕ) → AllBounded k (categorize server h asked k).0
  unfolding categorize categorize_one
  categorize-Bounded zero = λ t. (omega arith, λ o. (omega arith, λ i e. ground arith))
  categorize-Bounded (suc k) =
      let r = categorize server h asked k in
      let a = setfd_if server h asked k fdset_read r in
      let b = setfd_if server h asked k fdset_write a in
      let lt : k < suc k = omega arith in
      let before : AllBounded (suc k) r.0 =
        λ t. (let (le, all) = categorize-Bounded k t in (omega arith, all)) in
      setfd_if-Bounded (suc k) k fdset_except b lt (
        setfd_if-Bounded (suc k) k fdset_write a lt
          (setfd_if-Bounded (suc k) k fdset_read r lt before))

  -- The loop succeeds exactly if every descriptor below its bound has, for each set that asks for
  -- it, a type that the operation can have. Once it has succeeded, the set of a type for an
  -- operation has exactly the descriptors below the bound that the caller asks for in the set of
  -- that operation and whose type is that one. However it ends, no set has a descriptor at or
  -- above the bound that is kept for that set, which is at most the bound kept for the type, which
  -- is at most the number of rounds.
  pub categorize_lem :
      (k : ℕ)
      → (is_ok (categorize server h asked k).1 ≡ true
          ↔ ((i : ℕ) → i < k → all_typed server h asked i ≡ true))
        × (is_ok (categorize server h asked k).1 ≡ true
            → (t : SelectType) (o : FdSetOp) (i : ℕ)
            → ((categorize server h asked k).0 t).fdset o (pos i)
              ≡ (ltb i k && sorted server h asked t o i))
        × AllBounded k (categorize server h asked k).0
  categorize_lem k = (
    categorize-accepts server h asked k,
    categorize-sorted server h asked k,
    categorize-Bounded k,
  )
