-- ===== src/Network/Select/Files.antt =====
-- network/select.c: select() where all descriptors are of regular files.
use os2compat.Prelude.{
  ℕ, zero, suc, ltb, ◌<◌, ◌≡◌, refl, ap, ◌∙◌, inl, inr, is_some, Bool, true, false, ◌&&◌, Option,
  none, some, pos, Bool-cases, lt_or_le, arith,
}
use os2compat.System.{regular, ok, fail, Status, Handles}
use os2compat.Network.Poll.{FdSet, TimeVal}
use os2compat.Network.Select.{
  st_file, st_pipe, st_socket, FdSetOp, fdset_read, fdset_write, fdset_except, type_of_kind,
  accepts, Parms, Asked, is_asked, put_fd, setfd, setfd_if, categorize_one, categorize,
}
use os2compat.Network.Select.Os.{Os}
use os2compat.Network.Select.Sorted.{is_ok, sorted, type_at, categorize-sorted}
use os2compat.Network.Select.Merge.{merge, merge_fds}
use os2compat.Network.Select.Merged.{merge_fds-sets}
use os2compat.Network.Select.Phases.{
  check_files, check_pipes, check_sockets, then_sockets, clear_others, set_pending,
}
use os2compat.Network.Select.Call.{
  decide, cleanup, finish, outcome, after_checks, select_parms, select_sorted, select,
}
use os2compat.Network.Select.Ready.{file-nmaxfds, asked-given, given-asked, is_asked-given_back}

-- Every descriptor that is asked for is one of a regular file.
abbrev pub OnlyFiles : Handles → Asked → ℕ → Type 0
OnlyFiles h asked k =
    (o : FdSetOp) (i : ℕ) → i < k → is_asked asked o (pos i) ≡ true → h.fstat (pos i) ≡ ok regular

abbrev NoOthers : Parms → Type 0
NoOthers parms = ((parms st_pipe).nmaxfds ≡ 0) × ((parms st_socket).nmaxfds ≡ 0)

module _ (server : ℕ → Bool) (h : Handles) (asked : Asked) where
  setfd-file :
      (i : ℕ) (op : FdSetOp) (parms : Parms)
      → h.fstat (pos i) ≡ ok regular
      → NoOthers parms
      → NoOthers (setfd server h i parms op).0 × (is_ok (setfd server h i parms op).1 ≡ true)
  unfolding setfd put_fd type_of_kind accepts
  setfd-file i op parms file z = (rw (file, setfd) z, rw (file, setfd) refl)

  setfd_if-file :
      (i : ℕ) (op : FdSetOp) (r : Parms × Status)
      → (is_asked asked op (pos i) ≡ true → h.fstat (pos i) ≡ ok regular)
      → NoOthers r.0 × (is_ok r.1 ≡ true)
      → NoOthers (setfd_if server h asked i op r).0
        × (is_ok (setfd_if server h asked i op r).1 ≡ true)
  unfolding setfd_if
  setfd_if-file i op (parms, fail e) file z = z
  setfd_if-file i op (parms, ok _) file z = elim (Bool-cases (is_asked asked op (pos i))) [
    | inl e ↦ rw e (setfd-file i op parms (file e) z.0)
    | inr e ↦ rw e z
  ]

  pub categorize-files :
      (k : ℕ)
      → OnlyFiles h asked k
      → NoOthers (categorize server h asked k).0 × (is_ok (categorize server h asked k).1 ≡ true)
  unfolding categorize categorize_one
  categorize-files zero files = ((refl, refl), refl)
  categorize-files (suc k) files =
      let r = categorize server h asked k in
      let a = setfd_if server h asked k fdset_read r in
      let b = setfd_if server h asked k fdset_write a in
      let before = categorize-files k (λ o i lt. files o i (omega arith)) in
      setfd_if-file k fdset_except b (files fdset_except k (omega arith)) (
        setfd_if-file k fdset_write a (files fdset_write k (omega arith))
          (setfd_if-file k fdset_read r (files fdset_read k (omega arith)) before))

  -- What is asked is sorted to the files, and nothing else.
  sorted-file :
      (k : ℕ) (o : FdSetOp) (i : ℕ)
      → OnlyFiles h asked k
      → i < k
      → sorted server h asked st_file o i ≡ is_asked asked o (pos i)
  unfolding type_of_kind accepts
  sorted-file k o i files lt = elim (Bool-cases (is_asked asked o (pos i))) [
    | inl e ↦ rw (e, type_at, files o i lt e) refl
    | inr e ↦ rw e refl
  ]

-- Without pipes and sockets, and with files, the state of the world is not looked at.
select_parms-files :
    (os : Os) (early : Bool) (asked : Asked) (nfds : ℕ) (timeout : Option TimeVal) (w : os.World)
    (parms : Parms)
    → NoOthers parms
    → ltb 0 (parms st_file).nmaxfds ≡ true
    → select_parms os early asked nfds timeout w parms
      ≡ (w, ok (merge asked nfds (clear_others (set_pending st_file (λ t. false)) parms) true))
unfolding select_parms check_files check_pipes then_sockets check_sockets after_checks finish
    outcome cleanup decide
select_parms-files os early asked nfds timeout w parms (no_pipes, no_socks) files =
    rw (files, no_pipes, no_socks) (rw (finish, cleanup, no_pipes, no_socks) refl)

select_sorted-files :
    (os : Os) (early : Bool) (asked : Asked) (nfds : ℕ) (timeout : Option TimeVal) (w : os.World)
    (r : Parms × Status)
    → NoOthers r.0
    → is_ok r.1 ≡ true
    → ltb 0 (r.0 st_file).nmaxfds ≡ true
    → select_sorted os early asked nfds timeout w r
      ≡ (w, ok (merge asked nfds (clear_others (set_pending st_file (λ t. false)) r.0) true))
unfolding select_sorted
select_sorted-files os early asked nfds timeout w (parms, fail e) z good files = ground arith
select_sorted-files os early asked nfds timeout w (parms, ok _) z good files =
    select_parms-files os early asked nfds timeout w parms z files

-- The members of the answer, where only files are left.
merge-files :
    (asked : Asked) (parms : Parms) (nfds : ℕ) (o : FdSetOp) (i : ℕ) (b : Bool)
    → ((parms st_file).fdset o (pos i) ≡ b)
    → is_asked
        (merge asked nfds (clear_others (set_pending st_file (λ t. false)) parms) true).1
        o
        (pos i)
      ≡ (is_some (asked o) && (ltb i nfds && b))
unfolding merge clear_others
merge-files asked parms nfds o i b mem =
    let final = clear_others (set_pending st_file (λ t. false)) parms in
    let sets = merge_fds-sets asked final nfds o i in
    is_asked-given_back (is_some (asked o)) ((merge_fds asked final nfds).sets o) (pos i)
    ∙ rw (sets, mem) (ground arith)

below : (n i : ℕ) (a b : Bool) → (i < n → a ≡ b) → (ltb i n && a) ≡ (ltb i n && b)
below n i a b same = elim (lt_or_le i n) [
  | inl lt ↦ ap (λ c. ltb i n && c) (same lt)
  | inr le ↦ ground arith
]

asked-twice :
    (asked : Asked) (o : FdSetOp) (i n : ℕ)
    → (is_some (asked o) && (ltb i n && (ltb i n && is_asked asked o (pos i))))
      ≡ (ltb i n && is_asked asked o (pos i))
asked-twice asked o i n = twice (asked o)
  where
    twice :
        (s : Option FdSet)
        → (is_some s && (ltb i n && (ltb i n && (elim s [ none ↦ false | some t ↦ t (pos i) ]))))
          ≡ (ltb i n && (elim s [ none ↦ false | some t ↦ t (pos i) ]))
    twice none = ground arith
    twice (some t) = ground arith

module _ (os : Os) (h : Handles) (nfds : ℕ) (asked : Asked) (files : OnlyFiles h asked nfds) where
  open os use {World, np_end_server}

  answer-files :
      is_ok (categorize np_end_server h asked nfds).1 ≡ true
      → (o : FdSetOp) (i : ℕ)
      → is_asked
          (merge asked nfds
            (clear_others
              (set_pending st_file (λ t. false))
              (categorize np_end_server h asked nfds).0)
            true).1
          o
          (pos i)
        ≡ (ltb i nfds && is_asked asked o (pos i))
  answer-files good o i =
      let parms = (categorize np_end_server h asked nfds).0 in
      let mem : (parms st_file).fdset o (pos i) ≡ (ltb i nfds && is_asked asked o (pos i)) =
        categorize-sorted np_end_server h asked nfds good st_file o i
        ∙ below nfds i _ _ (λ lt. sorted-file np_end_server h asked nfds o i files lt) in
      merge-files asked parms nfds o i (ltb i nfds && is_asked asked o (pos i)) mem
      ∙ asked-twice asked o i nfds

  -- Where some descriptor is asked for below `nfds`, and every one that is asked for there is of a
  -- regular file, select() succeeds whatever its timeout is and leaves the state of the world as it
  -- was, so that it does not wait, and the sets that come back have exactly the descriptors below
  -- `nfds` that were in them.
  pub select-files :
      (early : Bool) (timeout : Option TimeVal) (w : World) (some_op : FdSetOp) (some_fd : ℕ)
      → some_fd < nfds
      → is_asked asked some_op (pos some_fd) ≡ true
      → (n : ℕ) × (answer : Asked) × (select os early h nfds asked timeout w ≡ (w, ok (n, answer)))
        × ((o : FdSetOp) (i : ℕ)
            → is_asked answer o (pos i) ≡ (ltb i nfds && is_asked asked o (pos i)))
  unfolding select select_sorted
  select-files early timeout w some_op some_fd lt wanted =
      let r = categorize np_end_server h asked nfds in
      let (no_others, good) = categorize-files np_end_server h asked nfds files in
      let (n, answer) =
        merge asked nfds (clear_others (set_pending st_file (λ t. false)) r.0) true in
      let nonempty =
        file-nmaxfds os h nfds asked some_op some_fd lt (files some_op some_fd lt wanted) wanted
          good in
      (
        n,
        answer,
        rw (given-asked os asked some_op (asked-given asked some_op some_fd wanted))
            (select_sorted-files os early asked nfds timeout w r no_others good nonempty),
        answer-files good,
      )
