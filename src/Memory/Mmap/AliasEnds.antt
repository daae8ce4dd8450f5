-- ===== src/Memory/Mmap/AliasEnds.antt =====
-- memory/mmap.c: the allocation loop of `aliasAtAddress` ends.
use os2compat.Prelude.{
  ℕ, zero, suc, ◌+◌, ◌-◌, ◌==◌, ◌≡◌, ◌≤◌, ◌<◌, refl, inl, inr, leb, ltb, true, false, not, ◌||◌,
  Option, none, some, ◌∷◌, [], update, lt_or_le, Bool-cases, arith,
}
use os2compat.Memory.Os.{Os, perm}
use os2compat.Memory.Mmap.{word, add_word}
use os2compat.Memory.Mmap.Alias.{Attempt, tmps_size, try_alias, touched, passed, attempt, attempts}

module _ (os : Os) where
  open os use {World, dos_alloc_mem, dos_free_mem, dos_alias_mem}

  -- What a round still has before it.
  abbrev pub left : Attempt World → ℕ
  left c = c.cb_tmp + (tmps_size - c.i_tmp)

  -- A round that goes on has less before it.
  abbrev Smaller : Attempt World → Attempt World × Option ℕ → Type 0
  Smaller c (d, some rc) = Unit
  Smaller c (d, none) = (left d < left c) × (d.cb_tmp < word)

  module _ (p_mem cb_req pv_req : ℕ) where
    try_alias-Smaller :
        (c b : Attempt World)
        → c.cb_tmp < b.cb_tmp
        → b.cb_tmp < word
        → c.i_tmp ≡ b.i_tmp
        → Smaller b (try_alias os p_mem cb_req pv_req c)
    unfolding try_alias
    try_alias-Smaller c b h k e =
        let (w, rc, pv_new) = dos_alias_mem c.world p_mem cb_req [] in
        elim (Bool-cases (not (rc == 0) || ltb pv_req pv_new)) [
          | inl bad ↦ rw bad tt
          | inr good ↦ elim (Bool-cases (pv_new == pv_req)) [
            | inl hit ↦ rw (good, hit) tt
            | inr miss ↦ rw (good, miss) (omega arith, omega arith)
          ]
        ]

    passed-Smaller :
        (pv_new : ℕ) (c b : Attempt World)
        → c.cb_tmp ≡ b.cb_tmp
        → b.cb_tmp < word
        → c.i_tmp ≡ b.i_tmp
        → Smaller b (passed os cb_req pv_new c)
    unfolding passed
    passed-Smaller pv_new c b e k i = elim (Bool-cases (leb c.cb_tmp cb_req)) [
      | inl t ↦ rw t tt
      | inr f ↦ let less : cb_req < c.cb_tmp = ground arith in rw f (omega arith, omega arith)
    ]

    touched-Smaller :
        (pv_new : ℕ) (c b : Attempt World)
        → c.cb_tmp ≡ b.cb_tmp
        → b.cb_tmp < word
        → c.i_tmp ≡ b.i_tmp
        → pv_new ≤ pv_req
        → pv_req < add_word pv_new b.cb_tmp
        → Smaller b (touched os p_mem cb_req pv_req pv_new c)
    unfolding touched
    touched-Smaller pv_new c b e k i low high =
        let gap : pv_req - pv_new < b.cb_tmp = omega arith in
        let d : Attempt World = record c {
          world = (dos_free_mem c.world pv_new).0;
          tmps = update c.tmps c.i_tmp 0;
          cb_tmp = pv_req - pv_new;
        } in
        elim (Bool-cases (d.cb_tmp == 0)) [
          | inl t ↦ rw t (try_alias-Smaller d b gap k i)
          | inr f ↦ rw f (omega arith, omega arith)
        ]

    attempt-Smaller :
        (c : Attempt World)
        → c.cb_tmp < word
        → c.i_tmp < tmps_size
        → Smaller c (attempt os p_mem cb_req pv_req c)
    unfolding attempt
    attempt-Smaller c h k =
        let (w, rc, pv_new) = dos_alloc_mem c.world c.cb_tmp (perm ∷ []) in
        let d : Attempt World = record c { world = w; tmps = update c.tmps c.i_tmp pv_new } in
        elim (Bool-cases (not (rc == 0))) [
          | inl bad ↦ rw bad tt
          | inr good ↦ elim (Bool-cases (ltb pv_req pv_new)) [
            | inl above ↦ rw (good, above) (passed-Smaller pv_new d c refl h refl)
            | inr below ↦ elim (Bool-cases (ltb pv_req (add_word pv_new c.cb_tmp))) [
              | inl over ↦
                  rw (good, below, over)
                    (touched-Smaller pv_new d c refl h refl (ground arith) (ground arith))
              | inr under ↦ rw (good, below, under) (omega arith, h)
            ]
          ]
        ]

    attempts_rest :
        (f g : ℕ) (c : Attempt World) (r : Attempt World × Option ℕ)
        → Smaller c r
        → ((d : Attempt World)
            → left d < left c
            → d.cb_tmp < word
            → attempts os f p_mem cb_req pv_req d ≡ attempts os g p_mem cb_req pv_req d)
        → elim r.1 [ some rc ↦ (r.0, rc) | none ↦ attempts os f p_mem cb_req pv_req r.0 ]
          ≡ elim r.1 [ some rc ↦ (r.0, rc) | none ↦ attempts os g p_mem cb_req pv_req r.0 ]
    attempts_rest f g c (d, some rc) s go = refl
    attempts_rest f g c (d, none) (s, k) go = go d s k

    -- The allocation loop of `aliasAtAddress` ends, although two of its branches go on without
    -- using up an element of the array: with as many rounds as bytes and elements are left, more
    -- rounds change nothing, whatever OS/2 answers.
    pub attempts-enough :
        (f g : ℕ) (c : Attempt World)
        → c.cb_tmp < word
        → left c ≤ f
        → left c ≤ g
        → attempts os f p_mem cb_req pv_req c ≡ attempts os g p_mem cb_req pv_req c
    unfolding attempts
    attempts-enough zero zero c h m n = refl
    attempts-enough zero (suc g) c h m n =
        let full : leb tmps_size c.i_tmp ≡ true = ground arith in rw full refl
    attempts-enough (suc f) zero c h m n =
        let full : leb tmps_size c.i_tmp ≡ true = ground arith in rw full refl
    attempts-enough (suc f) (suc g) c h m n = elim (lt_or_le c.i_tmp tmps_size) [
      | inr full ↦ let e : leb tmps_size c.i_tmp ≡ true = ground arith in rw e refl
      | inl room ↦
          let e : leb tmps_size c.i_tmp ≡ false = ground arith in
          rw e (
            attempts_rest f g c (attempt os p_mem cb_req pv_req c) (attempt-Smaller c h room)
              (λ d s k. attempts-enough f g d k (omega arith) (omega arith)))
    ]
