-- ===== src/Network/Select/Within.antt =====
-- network/select.c: where the descriptors in the sets come from, up to the wait.
use os2compat.Prelude.{
  ℕ, zero, suc, ◌==◌, ◌+◌, ◌≡◌, inl, inr, if◌then◌else◌, Bool, true, false, Option, none, some,
  List, [], ◌∷◌, ◌++◌, ℤ, pos, Bool-cases, arith,
}
use os2compat.System.{Result, ok, fail}
use os2compat.Network.Poll.{FdSet, fd_set, fd_zero, TimeVal}
use os2compat.Network.Select.{
  SelectType, same_type, FdSetOp, fdset_read, fdset_write, fdset_except, SelectParm, Parms,
  set_parm,
}
use os2compat.Network.Select.Os.{Os, Sets}
use os2compat.Network.Select.Pipes.{
  PipeSem, keep_sem, init_pipe_sem, init_round, init_rounds, initpipesems, refresh_sem,
  check_rounds, checkpipesems,
}
use os2compat.Network.Select.Phases.{both_sets}

-- The runtime's select() takes descriptors out of the sets only.
pub record SetLaws (os : Os) : Type 0 where
  pub std_select-subset :
      (w : os.World) (n : ℕ) (sets : Sets) (timeout : Option TimeVal) (o : FdSetOp) (x : ℤ)
      → (os.std_select w n sets timeout).2 o x ≡ true
      → sets o x ≡ true
  pub interrupted_select-subset :
      (w : os.World) (sets : Sets) (o : FdSetOp) (x : ℤ)
      → (os.interrupted_select w sets).1 o x ≡ true
      → sets o x ≡ true

module _ (P : FdSetOp → ℕ → Type 0) where
  abbrev pub SetIn : FdSetOp → FdSet → Type 0
  SetIn o s = (i : ℕ) → s (pos i) ≡ true → P o i

  abbrev pub SetsIn : Sets → Type 0
  SetsIn sets = (o : FdSetOp) → SetIn o (sets o)

  abbrev pub Within : Parms → Type 0
  Within parms = (t : SelectType) → SetsIn (parms t).fdset

  abbrev pub SemsIn : FdSetOp → List PipeSem → Type 0
  SemsIn o [] = Unit {0}
  SemsIn o (p ∷ ps) = P o p.fd × SemsIn o ps

  pub set_parm-Within :
      (u : SelectType) (p : SelectParm) (parms : Parms)
      → SetsIn p.fdset
      → Within parms
      → Within (set_parm u p parms)
  set_parm-Within u p parms new old t = elim (Bool-cases (same_type t u)) [
    | inl e ↦ rw e new
    | inr e ↦ rw e (old t)
  ]

  pub fd_set-SetIn :
      (o : FdSetOp) (fd : ℕ) (s : FdSet) → P o fd → SetIn o s → SetIn o (fd_set (pos fd) s)
  fd_set-SetIn o fd s here old i mem = elim (Bool-cases (i == fd)) [
    | inl e ↦ (let same : i ≡ fd = ground arith in rw same here)
    | inr e ↦ old i (ground arith)
  ]

  SemsIn-++ : (o : FdSetOp) (ps qs : List PipeSem) → SemsIn o ps → SemsIn o qs → SemsIn o (ps ++ qs)
  SemsIn-++ o [] qs a b = b
  SemsIn-++ o (p ∷ ps) qs (here, a) b = (here, SemsIn-++ o ps qs a b)

  pub both_sets-In :
      (rset wset : FdSet) (old : Sets)
      → SetIn fdset_read rset
      → SetIn fdset_write wset
      → SetsIn old
      → SetsIn (both_sets rset wset old)
  both_sets-In rset wset old rd wr all fdset_read = rd
  both_sets-In rset wset old rd wr all fdset_write = wr
  both_sets-In rset wset old rd wr all fdset_except = all fdset_except

  pub subset-SetsIn :
      (s t : Sets) → ((o : FdSetOp) (x : ℤ) → t o x ≡ true → s o x ≡ true) → SetsIn s → SetsIn t
  subset-SetsIn s t sub all o i mem = all o i (sub o (pos i) mem)

  pub empty-SetsIn : SetsIn (λ o. fd_zero)
  empty-SetsIn o i e = ground arith

  module _ (os : Os) where
    open os use {World}

    abbrev pub ResultIn : FdSetOp → Result (List PipeSem) → Type 0
    ResultIn o (fail e) = Unit {0}
    ResultIn o (ok sems) = SemsIn o sems

    keep_sem-In :
        (o : FdSetOp) (fd : ℕ) (sems : List PipeSem) (r : World × Option ℕ)
        → P o fd
        → SemsIn o sems
        → ResultIn o (keep_sem os fd sems r).1
    unfolding keep_sem
    keep_sem-In o fd sems (w, some hev) here all =
        SemsIn-++ o sems (record { fd = fd; hev = hev } ∷ []) all (here, tt)
    keep_sem-In o fd sems (w, none) here all = tt

    init_round-In :
        (parm : SelectParm) (o : FdSetOp) (fd : ℕ) (r : World × Result (List PipeSem))
        → SetIn o (parm.fdset o)
        → ResultIn o r.1
        → ResultIn o (init_round os parm o fd r).1
    unfolding init_round
    init_round-In parm o fd (w, fail e) sets all = tt
    init_round-In parm o fd (w, ok sems) sets all = elim (Bool-cases (parm.fdset o (pos fd))) [
      | inl e ↦ rw e (keep_sem-In o fd sems (init_pipe_sem os o fd w) (sets fd e) all)
      | inr e ↦ rw e all
    ]

    init_rounds-In :
        (parm : SelectParm) (o : FdSetOp) (k : ℕ) (w : World)
        → SetIn o (parm.fdset o)
        → ResultIn o (init_rounds os parm o k w).1
    unfolding init_rounds
    init_rounds-In parm o zero w sets = tt
    init_rounds-In parm o (suc k) w sets =
        init_round-In parm o k (init_rounds os parm o k w) sets (init_rounds-In parm o k w sets)

    pub initpipesems-In :
        (parm : SelectParm) (o : FdSetOp) (w : World)
        → SetIn o (parm.fdset o)
        → ResultIn o (initpipesems os parm o w).1
    unfolding initpipesems
    initpipesems-In parm o w sets = init_rounds-In parm o (parm.nfds o) w sets

    mark_if-SetIn :
        (o : FdSetOp) (fd : ℕ) (s : FdSet) (b : Bool)
        → P o fd
        → SetIn o s
        → SetIn o (if b then fd_set (pos fd) s else s)
    mark_if-SetIn o fd s true here old = fd_set-SetIn o fd s here old
    mark_if-SetIn o fd s false here old = old

    check_rounds-In :
        (pending : Bool) (o : FdSetOp) (sems : List PipeSem) (w : World) (n : ℕ) (set : FdSet)
        → SemsIn o sems
        → SetIn o set
        → SetIn o (check_rounds os pending sems w n set).2
    unfolding check_rounds
    check_rounds-In pending o [] w n set all old = old
    check_rounds-In pending o (p ∷ ps) w n set (here, all) old =
        let v = if pending then refresh_sem os p.hev w else w in
        let (u, posted) = os.dos_wait_event_sem v p.hev in
        check_rounds-In pending o ps u (if posted then n + 1 else n)
          (if posted then fd_set (pos p.fd) set else set) all
          (mark_if-SetIn o p.fd set posted here old)

    pub checkpipesems-In :
        (pending : Bool) (o : FdSetOp) (sems : List PipeSem) (w : World)
        → SemsIn o sems
        → SetIn o (checkpipesems os pending sems w).2
    unfolding checkpipesems
    checkpipesems-In pending o sems w all =
        check_rounds-In pending o sems w 0 fd_zero all (λ i e. ground arith)
