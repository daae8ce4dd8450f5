-- ===== src/Network/Poll/Spec.antt =====
-- What poll() of network/poll.c asks of select(), said without its loops: as predicates over the
-- entries.
use Prim.Native.Nat.{bit_and}
use os2compat.Prelude.{
  ℕ, zero, suc, ◌≡◌, refl, sym, ◌∙◌, inl, inr, Bool, true, false, not, ◌&&◌, ◌||◌, ◌==◌,
  if◌then◌else◌, ℤ, pos, negsuc, lt_ℤ, eq_ℤ, Array, Bool-cases, arith,
}
use os2compat.System.{Handles}
use os2compat.Network.Poll.{
  PollFd, FdSet, pollin, pollout, pollpri, checkfd, Prep, prepare_open, prepare_one, prepare,
  prep_start,
}
use os2compat.Network.Poll.Entries.{prepare-fds}

module _ (h : Handles) (a : Array PollFd) where
  -- Some open entry among the first `k` asks for `bit` on the descriptor.
  unfoldable pub asked : ℕ → ℕ → FdSet
  asked bit zero x = false
  asked bit (suc k) x =
      checkfd h (a k).fd && not (bit_and (a k).events bit == 0) && eq_ℤ x (a k).fd || asked bit k x

  -- Some entry names a descriptor that is not open, negative ones apart.
  unfoldable pub any_bad : ℕ → Bool
  any_bad zero = false
  any_bad (suc k) = not (checkfd h (a k).fd) && not (lt_ℤ (a k).fd (pos 0)) || any_bad k

  -- The greatest open descriptor, or -1.
  unfoldable pub top_fd : ℕ → ℤ
  top_fd zero = negsuc 0
  top_fd (suc k) = if checkfd h (a k).fd && lt_ℤ (top_fd k) (a k).fd then (a k).fd else top_fd k

  -- Every open descriptor fits into an `fd_set`.
  unfoldable pub in_range : ℕ → ℕ → Bool
  in_range fd_setsize zero = true
  in_range fd_setsize (suc k) =
      (not (checkfd h (a k).fd) || (not (lt_ℤ (a k).fd (pos 0)) && lt_ℤ (a k).fd (pos fd_setsize)))
      && in_range fd_setsize k

-- The first loop has computed these after `k` rounds.
pub record Prepared (h : Handles) (a : Array PollFd) (k : ℕ) (p : Prep) : Type 0 where
  pub reads : (x : ℤ) → p.rdset x ≡ asked h a pollin k x
  pub writes : (x : ℤ) → p.wrset x ≡ asked h a pollout k x
  pub excepts : (x : ℤ) → p.exset x ≡ asked h a pollpri k x
  pub bad : (p.non_sockets == 0) ≡ not (any_bad h a k)
  pub top : p.val ≡ top_fd h a k

module _ (h : Handles) (fd_setsize : ℕ) (a : Array PollFd) where
  prepare_one-good :
      (k : ℕ) (p : Prep)
      → p.fds k ≡ a k
      → in_range h a fd_setsize k ≡ true
      → (prepare_one h fd_setsize k p).1 ≡ in_range h a fd_setsize (suc k)
  unfolding prepare_one prepare_open in_range
  prepare_one-good k p e r = ground arith

  prepare_one-Prepared :
      (k : ℕ) (p : Prep)
      → p.fds k ≡ a k
      → Prepared h a k p
      → (prepare_one h fd_setsize k p).1 ≡ true
      → Prepared h a (suc k) (prepare_one h fd_setsize k p).0
  unfolding prepare_one prepare_open asked any_bad top_fd
  prepare_one-Prepared k p e r good = record {
    reads = λ x. ground (arith, r.reads x);
    writes = λ x. ground (arith, r.writes x);
    excepts = λ x. ground (arith, r.excepts x);
    bad = ground (arith, r.bad);
    top = ground (arith, r.top);
  }

  out_stays : (k : ℕ) → in_range h a fd_setsize k ≡ false → false ≡ in_range h a fd_setsize (suc k)
  unfolding in_range
  out_stays k e = ground arith

  -- The first loop runs through exactly when every open descriptor is in range.
  pub prepare-good : (k : ℕ) → (prepare h fd_setsize k (prep_start a)).1 ≡ in_range h a fd_setsize k
  unfolding prepare
  prepare-good zero = unfold in_range in refl
  prepare-good (suc k) = elim (Bool-cases (prepare h fd_setsize k (prep_start a)).1) [
    | inl good ↦ rw good (
        prepare_one-good k (prepare h fd_setsize k (prep_start a)).0
          (ground (arith, prepare-fds h fd_setsize k (prep_start a) good k))
          (sym (prepare-good k) ∙ good))
    | inr bad ↦ rw bad (out_stays k (sym (prepare-good k) ∙ bad))
  ]

  pub prepare-Prepared :
      (k : ℕ)
      → (prepare h fd_setsize k (prep_start a)).1 ≡ true
      → Prepared h a k (prepare h fd_setsize k (prep_start a)).0
  unfolding prepare
  prepare-Prepared zero good =
      unfold asked any_bad top_fd in
      record { reads = λ x. refl; writes = λ x. refl; excepts = λ x. refl; bad = refl; top = refl }
  prepare-Prepared (suc k) good = elim (Bool-cases (prepare h fd_setsize k (prep_start a)).1) [
    | inl before ↦ rw before (
        prepare_one-Prepared k (prepare h fd_setsize k (prep_start a)).0
          (ground (arith, prepare-fds h fd_setsize k (prep_start a) before k))
          (prepare-Prepared k before) (rw before at good))
    | inr stopped ↦ cc (rw stopped at good)
  ]
