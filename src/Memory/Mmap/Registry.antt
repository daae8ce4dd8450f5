-- ===== src/Memory/Mmap/Registry.antt =====
-- memory/mmap.c: what `os2compat_munmap` takes out of the list of mappings.
use os2compat.Prelude.{
  ℕ, ◌%◌, ◌==◌, ◌≡◌, ◌≢◌, refl, ap, ◌∙◌, inl, inr, if◌then◌else◌, Bool, true, false, ◌&&◌, none,
  some, List, [], ◌∷◌, ◌++◌, Bool-cases, arith,
}
use os2compat.System.{Errno, einval, ok, fail, Status}
use os2compat.Memory.Os.{Os}
use os2compat.Memory.Mmap.{has, map_shared, ms_sync, Mapping, find_exact, remove_exact}
use os2compat.Memory.Mmap.Object.{free_mem}
use os2compat.Memory.Mmap.Unmap.{Process, msync, must_sync, release, unmap_found, munmap}

-- The mapping has exactly this range.
abbrev pub is_at : ℕ → ℕ → Mapping → Bool
is_at addr len m = m.addr == addr && m.len == len

abbrev pub NoneAt : ℕ → ℕ → List Mapping → Type 0
NoneAt addr len [] = Unit
NoneAt addr len (m ∷ ms) = (is_at addr len m ≡ false) × NoneAt addr len ms

module _ (addr len : ℕ) where
  pub find_exact-some :
      (xs ys : List Mapping) (m : Mapping)
      → NoneAt addr len xs
      → is_at addr len m ≡ true
      → find_exact addr len (xs ++ (m ∷ ys)) ≡ some m
  unfolding find_exact
  find_exact-some [] ys m free h = rw h
  find_exact-some (x ∷ xs) ys m free h = rw free.0 (find_exact-some xs ys m free.1 h)

  pub remove_exact-middle :
      (xs ys : List Mapping) (m : Mapping)
      → NoneAt addr len xs
      → is_at addr len m ≡ true
      → remove_exact addr len (xs ++ (m ∷ ys)) ≡ xs ++ ys
  unfolding remove_exact
  remove_exact-middle [] ys m free h = rw h
  remove_exact-middle (x ∷ xs) ys m free h =
      rw free.0 (ap (λ r. x ∷ r) (remove_exact-middle xs ys m free.1 h))

  pub find_exact-none : (xs : List Mapping) → NoneAt addr len xs → find_exact addr len xs ≡ none
  unfolding find_exact
  find_exact-none [] free = refl
  find_exact-none (x ∷ xs) free = rw free.0 (find_exact-none xs free.1)

module _ (os : Os) where
  open os use {World, getpagesize, close}

  -- The world once the memory of a mapping and its descriptor are given back.
  abbrev pub released : World → Mapping → World
  released w m =
      free_mem os (if has m.flags map_shared then close w m.fd else w) m.addr m.base m.flags

  module _ (p : Process World) (m : Mapping) where
    release-ok :
        (w : World) (rest : List Mapping)
        → remove_exact m.addr m.len p.maps ≡ rest
        → release os p m (w, ok tt) ≡ (record { world = released w m; maps = rest }, ok tt)
    unfolding release
    release-ok w rest e = rw e

    unmap_quiet :
        (rest : List Mapping)
        → remove_exact m.addr m.len p.maps ≡ rest
        → must_sync m ≡ false
        → unmap_found os p (some m) ≡ (record { world = released p.world m; maps = rest }, ok tt)
    unfolding unmap_found
    unmap_quiet rest e quiet = rw quiet (release-ok p.world rest e)

    unmap_synced :
        (rest : List Mapping)
        → remove_exact m.addr m.len p.maps ≡ rest
        → must_sync m ≡ true
        → let (w, r) = msync os p m.addr m.len ms_sync in
          (r ≡ ok tt
            → unmap_found os p (some m) ≡ (record { world = released w m; maps = rest }, ok tt))
          × ((e : Errno)
              → r ≡ fail e
              → unmap_found os p (some m) ≡ (record p { world = w }, fail e))
    unfolding unmap_found release
    unmap_synced rest e due =
        let (w, r) = msync os p m.addr m.len ms_sync in
        rw due (
          λ good. ap (λ (x : Status). release os p m (w, x)) good ∙ release-ok w rest e,
          λ f bad. ap (λ (x : Status). release os p m (w, x)) bad,
        )

    -- munmap() of a mapping that stands behind `xs` in the list.
    pub munmap_middle :
        (xs ys : List Mapping)
        → m.addr % getpagesize ≡ 0
        → p.maps ≡ xs ++ (m ∷ ys)
        → NoneAt m.addr m.len xs
        → (must_sync m ≡ false
            → munmap os p m.addr m.len
              ≡ (record { world = released p.world m; maps = xs ++ ys }, ok tt))
          × (must_sync m ≡ true
              → let (w, r) = msync os p m.addr m.len ms_sync in
                (r ≡ ok tt
                  → munmap os p m.addr m.len
                    ≡ (record { world = released w m; maps = xs ++ ys }, ok tt))
                × ((e : Errno)
                    → r ≡ fail e
                    → munmap os p m.addr m.len ≡ (record p { world = w }, fail e)))
    unfolding munmap
    munmap_middle xs ys h e free =
        let even : (m.addr % getpagesize == 0) ≡ true = ground arith in
        let itself : is_at m.addr m.len m ≡ true = ground arith in
        let found : find_exact m.addr m.len p.maps ≡ some m =
          ap (find_exact m.addr m.len) e ∙ find_exact-some m.addr m.len xs ys m free itself in
        let gone : remove_exact m.addr m.len p.maps ≡ xs ++ ys =
          ap (remove_exact m.addr m.len) e ∙ remove_exact-middle m.addr m.len xs ys m free itself in
        rw (even, found) (unmap_quiet (xs ++ ys) gone, unmap_synced (xs ++ ys) gone)

  -- munmap() of a range that no mapping has exactly, or that is not aligned, fails with EINVAL and
  -- changes nothing. Else it takes out the newest mapping with that range, and no other, after
  -- writing it back where it is a writable shared file; if that fails the mapping stays.
  pub munmap_lem :
      (p : Process World) (addr len : ℕ)
      → (addr % getpagesize ≢ 0 → munmap os p addr len ≡ (p, fail einval))
        × (NoneAt addr len p.maps → munmap os p addr len ≡ (p, fail einval))
        × ((xs ys : List Mapping) (m : Mapping)
            → addr % getpagesize ≡ 0
            → p.maps ≡ xs ++ (m ∷ ys)
            → NoneAt addr len xs
            → is_at addr len m ≡ true
            → (must_sync m ≡ false
                → munmap os p addr len
                  ≡ (record { world = released p.world m; maps = xs ++ ys }, ok tt))
              × (must_sync m ≡ true
                  → let (w, r) = msync os p addr len ms_sync in
                    (r ≡ ok tt
                      → munmap os p addr len
                        ≡ (record { world = released w m; maps = xs ++ ys }, ok tt))
                    × ((e : Errno)
                        → r ≡ fail e
                        → munmap os p addr len ≡ (record p { world = w }, fail e))))
  unfolding munmap
  munmap_lem p addr len = (
    λ odd. (let e : (addr % getpagesize == 0) ≡ false = ground arith in rw e),
    λ free. elim (Bool-cases (addr % getpagesize == 0)) [
      | inl even ↦ rw (even, find_exact-none addr len p.maps free)
      | inr odd ↦ rw odd
    ],
    λ xs ys m h e free at.
        let a : m.addr ≡ addr = ground arith in
        let l : m.len ≡ len = ground arith in
        rw (← a, ← l) (munmap_middle p m xs ys (rw a h) e (rw (a, l) free)),
  )
