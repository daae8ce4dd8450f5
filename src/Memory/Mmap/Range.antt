-- ===== src/Memory/Mmap/Range.antt =====
-- memory/mmap.c: which ranges `os2compat_mprotect` and `os2compat_msync` accept.
use os2compat.Prelude.{
  ℕ, ◌+◌, ◌-◌, ◌%◌, ◌==◌, ◌≡◌, ◌≤◌, ◌<◌, ◌⊎◌, refl, inl, inr, true, none, some, List, [], ◌∷◌,
  Bool-cases, arith,
}
use os2compat.System.{einval, fail}
use os2compat.Memory.Os.{Os}
use os2compat.Memory.Mmap.{word, Mapping, covers, find_covering}
use os2compat.Memory.Mmap.Object.{set_mem}
use os2compat.Memory.Mmap.Unmap.{Process, mprotect}

-- The range lies in the mapping, as numbers.
abbrev pub Within : ℕ → ℕ → Mapping → Type 0
Within addr len m = (m.addr ≤ addr) × (addr + len ≤ m.addr + m.len)

-- No mapping, and not the range either, goes round the end of the address space.
abbrev pub NoWrap : List Mapping → Type 0
NoWrap [] = Unit
NoWrap (m ∷ ms) = (m.addr + m.len < word) × NoWrap ms

-- Some mapping of the list has the range in it.
abbrev pub SomeWithin : ℕ → ℕ → List Mapping → Type 0
SomeWithin addr len [] = ⊥
SomeWithin addr len (m ∷ ms) = Within addr len m ⊎ SomeWithin addr len ms

-- Some mapping of the list begins at or below the range and does not end below what is left of the
-- end of the range beyond the address space.
abbrev pub SomeWraps : ℕ → ℕ → List Mapping → Type 0
SomeWraps addr len [] = ⊥
SomeWraps addr len (m ∷ ms) =
    ((m.addr ≤ addr) × (addr + len - word ≤ m.addr + m.len)) ⊎ SomeWraps addr len ms

covers-Within :
    (addr len : ℕ) (m : Mapping)
    → addr + len < word
    → m.addr + m.len < word
    → ((covers addr len m ≡ true) → Within addr len m)
      × (Within addr len m → covers addr len m ≡ true)
unfolding covers
covers-Within addr len m h k = (λ c. ground arith, λ w. ground arith)

find_covering-some :
    (addr len : ℕ) (ms : List Mapping)
    → addr + len < word
    → NoWrap ms
    → SomeWithin addr len ms
    → (m : Mapping) × (find_covering addr len ms ≡ some m)
unfolding find_covering
find_covering-some addr len [] h k s = absurd s
find_covering-some addr len (m ∷ ms) h k s = elim (Bool-cases (covers addr len m)) [
  | inl c ↦ rw c (m, refl)
  | inr c ↦ rw c (
      find_covering-some addr len ms h k.1
        (elim s [ inl w ↦ cc ((covers-Within addr len m h k.0).1 w) | inr t ↦ t ]))
]

find_covering-none :
    (addr len : ℕ) (ms : List Mapping)
    → addr + len < word
    → NoWrap ms
    → ¬ SomeWithin addr len ms
    → find_covering addr len ms ≡ none
unfolding find_covering
find_covering-none addr len [] h k s = refl
find_covering-none addr len (m ∷ ms) h k s = elim (Bool-cases (covers addr len m)) [
  | inl c ↦ absurd (s (inl ((covers-Within addr len m h k.0).0 c)))
  | inr c ↦ rw c (find_covering-none addr len ms h k.1 (λ t. s (inr t)))
]

covers-wraps :
    (addr len : ℕ) (m : Mapping)
    → addr < word
    → len < word
    → word ≤ addr + len
    → m.addr + m.len < word
    → (m.addr ≤ addr) × (addr + len - word ≤ m.addr + m.len)
    → covers addr len m ≡ true
unfolding covers
covers-wraps addr len m a l over fits (low, high) = ground arith

find_covering-wraps :
    (addr len : ℕ) (ms : List Mapping)
    → addr < word
    → len < word
    → word ≤ addr + len
    → NoWrap ms
    → SomeWraps addr len ms
    → (m : Mapping) × (find_covering addr len ms ≡ some m)
unfolding find_covering
find_covering-wraps addr len [] a l over fits wraps = absurd wraps
find_covering-wraps addr len (m ∷ ms) a l over fits wraps = elim (Bool-cases (covers addr len m)) [
  | inl c ↦ rw c (m, refl)
  | inr c ↦ rw c (
      find_covering-wraps addr len ms a l over fits.1
        (elim wraps [ inl w ↦ cc (covers-wraps addr len m a l over fits.0 w) | inr t ↦ t ]))
]

none-Within :
    (addr len : ℕ) (ms : List Mapping) → word ≤ addr + len → NoWrap ms → ¬ SomeWithin addr len ms
none-Within addr len [] over fits s = s
none-Within addr len (m ∷ ms) over fits (inl w) = omega arith
none-Within addr len (m ∷ ms) over fits (inr t) = none-Within addr len ms over fits.1 t

module _ (os : Os) where
  open os use {World, getpagesize}

  -- Where no sum wraps, mprotect() of an aligned range sets the protection exactly when the range
  -- lies in some mapping, and fails with EINVAL, touching nothing, when it lies in none.
  pub mprotect-Within :
      (p : Process World) (addr len prot : ℕ)
      → addr % getpagesize ≡ 0
      → addr + len < word
      → NoWrap p.maps
      → (SomeWithin addr len p.maps
          → mprotect os p addr len prot ≡ set_mem os p.world addr len prot)
        × (¬ SomeWithin addr len p.maps → mprotect os p addr len prot ≡ (p.world, fail einval))
  unfolding mprotect
  mprotect-Within p addr len prot h k n =
      let even : (addr % getpagesize == 0) ≡ true = ground arith in
      rw even (
        λ s. (let (m, e) = find_covering-some addr len p.maps k n s in rw e),
        λ s. rw (find_covering-none addr len p.maps k n s),
      )

  -- The sums of the test wrap: an aligned range that runs over the end of the address space is
  -- accepted by mprotect() whenever some mapping begins at or below it and does not end below what
  -- is left of its end, although, where no mapping wraps, the range lies in no mapping at all.
  pub mprotect_wraps :
      (p : Process World) (addr len prot : ℕ)
      → addr % getpagesize ≡ 0
      → addr < word
      → len < word
      → word ≤ addr + len
      → NoWrap p.maps
      → SomeWraps addr len p.maps
      → (mprotect os p addr len prot ≡ set_mem os p.world addr len prot)
        × (¬ SomeWithin addr len p.maps)
  unfolding mprotect
  mprotect_wraps p addr len prot even a l over fits wraps =
      let aligned : (addr % getpagesize == 0) ≡ true = ground arith in
      let (m, found) = find_covering-wraps addr len p.maps a l over fits wraps in
      (rw (aligned, found) refl, none-Within addr len p.maps over fits)
