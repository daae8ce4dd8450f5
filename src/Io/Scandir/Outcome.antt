-- ===== src/Io/Scandir/Outcome.antt =====
-- io/scandir.c: what `os2compat_scandir` answers, and what it leaves allocated.
use os2compat.Prelude.{
  ℕ, zero, suc, ◌+◌, ◌*◌, ◌%◌, ◌==◌, ◌≡◌, ◌<◌, ◌⊎◌, refl, sym, ap, ◌∙◌, inl, inr, Bool, true, false,
  if◌then◌else◌, Option, none, some, List, [], ◌∷◌, ◌++◌, length, length-append, Bool-cases, arith,
}
use os2compat.System.{Errno, enomem, Result, ok, fail}
use os2compat.Io.Scandir.Selected.{selected, append_nil, append_assoc, one, one-selected}
use os2compat.Io.Scandir.{
  Runtime, cannot_open, entries, Scan, size_range, grown_size, takes_entry, make_room, append_entry,
  append_if, scan_entry, scan_dir, free_entries, free_list, sort_list, finish, scandir,
}

-- The documented behaviour of the heap: a block more, the same block resized, or no change.
pub record HeapLaws (rt : Runtime) : Type 0 where
  pub malloc_live :
      (w : rt.World) (n : ℕ)
      → rt.live (rt.malloc w n).0 ≡ rt.live w + (if (rt.malloc w n).1 then 1 else 0)
  pub realloc_live :
      (w : rt.World) (is_null : Bool) (n : ℕ)
      → rt.live (rt.realloc w is_null n).0
        ≡ rt.live w + (if (rt.realloc w is_null n).1 then if is_null then 1 else 0 else 0)
  pub free_live : (w : rt.World) → 0 < rt.live w → rt.live (rt.free w) + 1 ≡ rt.live w

module _ (rt : Runtime) where
  open rt use {World, Dirent, live, free, Compare, size_ptr, size_dirent}

  abbrev list_block : Bool → ℕ
  list_block is_null = if is_null then 0 else 1

  -- What the loop owns: a block for each entry of the list, and one for the list.
  abbrev Owns : ℕ → Scan rt → Type 0
  Owns base c = live c.world ≡ base + length c.list + list_block c.is_null

  -- A step of the loop that adds the entries `more`, or ends it with ENOMEM.
  abbrev Entered : ℕ → Scan rt → List Dirent → Scan rt × Bool → Type 0
  Entered base c more (n, true) = Owns base n × (n.errno ≡ none) × (n.list ≡ c.list ++ more)
  Entered base c more (n, false) = Owns base n × (n.errno ≡ some enomem)

  -- The list that `scandir` leaves: the blocks of the names and one for the list, or nothing.
  abbrev pub Left :
      ℕ
      → Option (Dirent → Bool)
      → List Dirent
      → Option Errno
      → Option Compare
      → World × Result (List Dirent)
      → Type 0
  Left base sel ds end compare (w, ok found) =
      (end ≡ none)
      × (found ≡ sort_list rt compare (selected rt sel ds))
      × ((live w ≡ base + length (selected rt sel ds))
          ⊎ (live w ≡ base + length (selected rt sel ds) + 1))
  Left base sel ds end compare (w, fail e) = (live w ≡ base) × ((e ≡ enomem) ⊎ (end ≡ some e))

  errno_cases : (o : Option Errno) → (o ≡ none) ⊎ ((e : Errno) × (o ≡ some e))
  errno_cases none = inl refl
  errno_cases (some e) = inr (e, refl)

  module _ (laws : HeapLaws rt) (base : ℕ) where
    make_room-Entered :
        (c : Scan rt) → Owns base c → c.errno ≡ none → Entered base c [] (make_room rt c)
    unfolding make_room
    make_room-Entered c o e = elim (Bool-cases (length c.list == c.list_size)) [
      | inr roomy ↦ rw roomy (o, e, append_nil rt c.list)
      | inl full ↦
          let size = grown_size c.list_size in
          let bytes = size * size_ptr % size_range in
          let made = laws.realloc_live c.world c.is_null bytes in
          elim (Bool-cases (rt.realloc c.world c.is_null bytes).1) [
            | inl got ↦
                let live_now : live (rt.realloc c.world c.is_null bytes).0
                    ≡ base + length c.list + 1 =
                  ground (arith, o, made, got) in
                rw (full, got) (live_now, e, append_nil rt c.list)
            | inr lost ↦
                let live_now : live (rt.realloc c.world c.is_null bytes).0
                    ≡ base + length c.list + list_block c.is_null =
                  ground (arith, o, made, lost) in
                rw (full, lost) (live_now, refl)
          ]
    ]

    append_entry-Entered :
        (d : Dirent) (c : Scan rt)
        → Owns base c
        → c.errno ≡ none
        → Entered base c (d ∷ []) (append_entry rt d c)
    unfolding append_entry
    append_entry-Entered d c o e =
        let made = laws.malloc_live c.world size_dirent in
        elim (Bool-cases (rt.malloc c.world size_dirent).1) [
          | inl got ↦
              let live_now : live (rt.malloc c.world size_dirent).0
                  ≡ base + length (c.list ++ (d ∷ [])) + list_block c.is_null =
                ground (arith, o, made, got, length-append c.list (d ∷ [])) in
              rw got (live_now, e, refl)
          | inr lost ↦
              let live_now : live (rt.malloc c.world size_dirent).0
                  ≡ base + length c.list + list_block c.is_null =
                ground (arith, o, made, lost) in
              rw lost (live_now, refl)
        ]

    Entered-same :
        (n c : Scan rt) (more : List Dirent) (r : Scan rt × Bool)
        → n.list ≡ c.list
        → Entered base n more r
        → Entered base c more r
    Entered-same n c more (m, false) same h = h
    Entered-same n c more (m, true) same (o, e, l) = (o, e, l ∙ ap (λ x. x ++ more) same)

    append_if-Entered :
        (d : Dirent) (c : Scan rt) (r : Scan rt × Bool)
        → Entered base c [] r
        → Entered base c (d ∷ []) (append_if rt d r)
    unfolding append_if
    append_if-Entered d c (n, false) h = h
    append_if-Entered d c (n, true) (o, e, same) =
        Entered-same n c (d ∷ []) (append_entry rt d n) (same ∙ sym (append_nil rt c.list))
          (append_entry-Entered d n o e)

    free_entries-live :
        (n : ℕ) (w : World) (m : ℕ) → live w ≡ m + n → live (free_entries rt n w) ≡ m
    unfolding free_entries
    free_entries-live zero w m e = omega (arith, e)
    free_entries-live (suc n) w m e =
        free_entries-live n (free w) m (omega (arith, e, laws.free_live w (omega (arith, e))))

    scan_entry-Entered :
        (sel : Option (Dirent → Bool)) (d : Dirent) (c : Scan rt)
        → Owns base c
        → Entered base c (one rt sel d) (scan_entry rt sel d c)
    unfolding scan_entry
    scan_entry-Entered sel d c o =
        let clear = record c { errno = none } in
        elim (Bool-cases (takes_entry rt sel d)) [
          | inl t ↦
              rw t (append_if-Entered d clear (make_room rt clear) (make_room-Entered clear o refl))
          | inr t ↦ rw t (o, refl, append_nil rt c.list)
        ]

    -- The loop from the list `before`, over `ds` and the end `end`.
    abbrev Scanned : List Dirent → List Dirent → Option Errno → Scan rt → Type 0
    Scanned before more end c =
        Owns base c
        × (c.errno ≡ none → (end ≡ none) × (c.list ≡ before ++ more))
        × ((e : Errno) → c.errno ≡ some e → (e ≡ enomem) ⊎ (end ≡ some e))

    scan_rest :
        (sel : Option (Dirent → Bool)) (d : Dirent) (ds : List Dirent) (end : Option Errno)
        (c : Scan rt) (r : Scan rt × Bool)
        → Entered base c (one rt sel d) r
        → ((n : Scan rt)
            → Owns base n
            → n.errno ≡ none
            → Scanned n.list (selected rt sel ds) end (scan_dir rt sel ds end n))
        → Scanned c.list
            (selected rt sel (d ∷ ds))
            end
            (if r.1 then scan_dir rt sel ds end r.0 else r.0)
    scan_rest sel d ds end c (n, false) (o, e) go = (o, λ k. cc (e, k), λ f k. inl (cc (e, k)))
    scan_rest sel d ds end c (n, true) (o, e, l) go =
        let (p, good, bad) = go n o e in
        (
          p,
          λ k. (
            (good k).0,
            (good k).1
                ∙ (ap (λ x. x ++ selected rt sel ds) l
                    ∙ (append_assoc rt c.list (one rt sel d) (selected rt sel ds)
                        ∙ ap (λ x. c.list ++ x) (one-selected rt sel d ds))),
          ),
          bad,
        )

    scan_dir-Scanned :
        (sel : Option (Dirent → Bool)) (ds : List Dirent) (end : Option Errno) (c : Scan rt)
        → Owns base c
        → c.errno ≡ none
        → Scanned c.list (selected rt sel ds) end (scan_dir rt sel ds end c)
    unfolding scan_dir
    scan_dir-Scanned sel [] none c o e = (o, λ _. (refl, append_nil rt c.list), λ f g. cc (e, g))
    scan_dir-Scanned sel [] (some f) c o e = (o, λ g. cc g, λ f g. inr g)
    scan_dir-Scanned sel (d ∷ ds) end c o e =
        scan_rest sel d ds end c (scan_entry rt sel d c) (scan_entry-Entered sel d c o)
          (λ n p q. scan_dir-Scanned sel ds end n p q)

    freed-live :
        (c : Scan rt)
        → Owns base c
        → live (free_list rt c.is_null (free_entries rt (length c.list) c.world)) ≡ base
    unfolding free_list
    freed-live c o = elim (Bool-cases c.is_null) [
      | inl t ↦ rw t (free_entries-live (length c.list) c.world base (ground (arith, o, t)))
      | inr t ↦
          let e : live (free_entries rt (length c.list) c.world) ≡ base + 1 =
            free_entries-live (length c.list) c.world (base + 1) (ground (arith, o, t)) in
          rw t (
            omega (
              arith,
              e,
              laws.free_live (free_entries rt (length c.list) c.world) (omega (arith, e)),
            ))
    ]

    finish-Left :
        (sel : Option (Dirent → Bool)) (ds : List Dirent) (end : Option Errno)
        (compare : Option Compare) (c : Scan rt)
        → Scanned [] (selected rt sel ds) end c
        → Left base sel ds end compare (finish rt compare c)
    unfolding finish
    finish-Left sel ds end compare c (o, good, bad) = elim (errno_cases c.errno) [
      | inl k ↦
          let same : c.list ≡ selected rt sel ds = (good k).1 in
          rw (k, finish)
            (
              (good k).0,
              ap (sort_list rt compare) same,
              elim (Bool-cases c.is_null) [
                | inl t ↦ inl (ground (arith, o, t, ap length same))
                | inr t ↦ inr (ground (arith, o, t, ap length same))
              ],
            )
      | inr (e, k) ↦ rw (k, finish) (freed-live c o, bad e k)
    ]

  -- scandir() succeeds only where readdir() reached the end without an error; its answer is then
  -- the selected entries, sorted where the caller gives an order, and it leaves a block for each
  -- of them and at most one for the list. Where it fails, with ENOMEM, the error of readdir() or
  -- that of opendir(), it leaves no block of its own.
  pub scandir-Left :
      HeapLaws rt
      → (w : World) (sel : Option (Dirent → Bool)) (compare : Option Compare)
      → ((e : Errno) → scandir rt w (cannot_open e) sel compare ≡ (w, fail e))
        × ((ds : List Dirent) (end : Option Errno)
            → Left (live w) sel ds end compare (scandir rt w (entries ds end) sel compare))
  unfolding scandir
  scandir-Left laws w sel compare = (
    λ e. refl,
    λ ds end.
        finish-Left laws (live w) sel ds end compare
          (scan_dir rt sel ds end
            (record { world = w; list = []; is_null = true; list_size = 0; errno = none }))
          (scan_dir-Scanned laws (live w) sel ds end
            (record { world = w; list = []; is_null = true; list_size = 0; errno = none })
            (omega arith) refl),
  )
