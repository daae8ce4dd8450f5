-- ===== src/Io/Scandir/Success.antt =====
-- io/scandir.c: `os2compat_scandir` where no call fails.
use os2compat.Prelude.{
  ℕ, ◌==◌, ◌%◌, ◌*◌, ◌≡◌, refl, sym, ap, ◌∙◌, inl, inr, Bool, true, false, Option, none, List, [],
  ◌∷◌, ◌++◌, length, Bool-cases,
}
use os2compat.System.{ok}
use os2compat.Io.Scandir.{
  Runtime, entries, Scan, size_range, grown_size, takes_entry, make_room, append_entry, append_if,
  scan_entry, scan_dir, sort_list, finish, scandir,
}
use os2compat.Io.Scandir.Selected.{selected, append_nil, append_assoc, one, one-selected}

module _ (rt : Runtime) where
  open rt use {World, Dirent, malloc, realloc, Compare, size_ptr, size_dirent}

  -- A step that goes on, with no error and with `more` behind the list.
  abbrev Goes : Scan rt → List Dirent → Scan rt × Bool → Type 0
  Goes c more (n, go) = (go ≡ true) × (n.errno ≡ none) × (n.list ≡ c.list ++ more)

  module _ (mem : (w : World) (n : ℕ) → (malloc w n).1 ≡ true)
      (remem : (w : World) (b : Bool) (n : ℕ) → (realloc w b n).1 ≡ true) where
    make_room-Goes : (c : Scan rt) → c.errno ≡ none → Goes c [] (make_room rt c)
    unfolding make_room
    make_room-Goes c e = elim (Bool-cases (length c.list == c.list_size)) [
      | inr roomy ↦ rw roomy (refl, e, append_nil rt c.list)
      | inl full ↦
          rw (full, remem c.world c.is_null (grown_size c.list_size * size_ptr % size_range))
            (refl, e, append_nil rt c.list)
    ]

    append_if-Goes :
        (d : Dirent) (c : Scan rt) (r : Scan rt × Bool)
        → Goes c [] r
        → Goes c (d ∷ []) (append_if rt d r)
    unfolding append_if append_entry
    append_if-Goes d c (n, false) (stop, e, l) = cc stop
    append_if-Goes d c (n, true) (_, e, l) =
        rw (mem n.world size_dirent)
          (refl, e, ap (λ x. x ++ (d ∷ [])) (l ∙ sym (append_nil rt c.list)))

    scan_entry-Goes :
        (sel : Option (Dirent → Bool)) (d : Dirent) (c : Scan rt)
        → Goes c (one rt sel d) (scan_entry rt sel d c)
    unfolding scan_entry
    scan_entry-Goes sel d c =
        let clear = record c { errno = none } in
        elim (Bool-cases (takes_entry rt sel d)) [
          | inl t ↦ rw t (append_if-Goes d clear (make_room rt clear) (make_room-Goes clear refl))
          | inr t ↦ rw t (refl, refl, append_nil rt c.list)
        ]

    scan_dir-Goes :
        (sel : Option (Dirent → Bool)) (ds : List Dirent) (c : Scan rt)
        → c.errno ≡ none
        → ((scan_dir rt sel ds none c).errno ≡ none)
          × ((scan_dir rt sel ds none c).list ≡ c.list ++ selected rt sel ds)
    unfolding scan_dir
    scan_dir-Goes sel [] c e = (e, append_nil rt c.list)
    scan_dir-Goes sel (d ∷ ds) c e =
        let (go, k, l) = scan_entry-Goes sel d c in
        let n = (scan_entry rt sel d c).0 in
        let (p, q) = scan_dir-Goes sel ds n k in
        rw go (
          p,
          q
              ∙ (ap (λ x. x ++ selected rt sel ds) l
                  ∙ (append_assoc rt c.list (one rt sel d) (selected rt sel ds)
                      ∙ ap (λ x. c.list ++ x) (one-selected rt sel d ds))),
        )

    -- Where memory never runs out and readdir() meets no error, scandir() succeeds with the
    -- selected entries, sorted where the caller gives an order.
    pub scandir-selected :
        (w : World) (ds : List Dirent) (sel : Option (Dirent → Bool)) (compare : Option Compare)
        → (scandir rt w (entries ds none) sel compare).1
          ≡ ok (sort_list rt compare (selected rt sel ds))
    unfolding scandir
    scandir-selected w ds sel compare =
        let start : Scan rt = record {
          world = w;
          list = [];
          is_null = true;
          list_size = 0;
          errno = none;
        } in
        let (e, l) = scan_dir-Goes sel ds start refl in
        rw (e, finish) (ap (λ x. ok (sort_list rt compare x)) l)
