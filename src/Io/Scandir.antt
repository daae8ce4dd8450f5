-- ===== src/Io/Scandir.antt =====
-- io/scandir.c: `os2compat_scandir`.
pub mod Selected
pub mod Outcome
pub mod Success
use os2compat.Prelude.{
  ℕ, zero, suc, ◌+◌, ◌*◌, ◌%◌, ◌^◌, ◌==◌, Bool, true, false, if◌then◌else◌, Option, none, some,
  List, [], ◌∷◌, ◌++◌, length,
}
use os2compat.System.{Errno, enomem, Result, ok, fail}

-- What the code calls of the C runtime. Of the heap only how many blocks it has plays a part: every
-- pointer that is freed is one that the code has got and not freed before.
pub record Runtime : Type 1 where
  pub World : Type 0
  pub Dirent : Type 0
  -- The size of a pointer and of `struct dirent`.
  pub size_ptr : ℕ
  pub size_dirent : ℕ
  pub malloc : World → ℕ → World × Bool
  -- `realloc`: whether the pointer is NULL, and the new size.
  pub realloc : World → Bool → ℕ → World × Bool
  pub free : World → World
  -- The blocks that are allocated.
  pub live : World → ℕ
  -- `qsort` of an array of pointers, by `compare`.
  pub Compare : Type 0
  pub qsort : Compare → List Dirent → List Dirent

-- What `opendir` gives: an error, or the entries that `readdir` returns one after another, and the
-- `errno` that is set when it returns NULL behind them.
pub data Dir (D : Type 0) : Type 0 where
  cannot_open : Errno → Dir D
  entries : List D → Option Errno → Dir D

-- The local variables of the loop; `list_count` is the length of `list`, `is_null` tells whether
-- the pointer `list` is NULL, and `errno` is `none` for 0.
pub record Scan (rt : Runtime) : Type 0 where
  pub world : rt.World
  pub list : List rt.Dirent
  pub is_null : Bool
  pub list_size : ℕ
  pub errno : Option Errno

abbrev pub size_range : ℕ
size_range = 2 ^ 32

-- The next size of the list.
unfoldable pub grown_size : ℕ → ℕ
grown_size list_size = if list_size == 0 then 20 else (list_size + list_size) % size_range

module _ (rt : Runtime) where
  open rt use {World, Dirent, size_ptr, size_dirent, malloc, realloc, free, Compare, qsort}

  -- The list made larger where it is full; `false` is the `break`.
  unfoldable pub make_room : Scan rt → Scan rt × Bool
  unfolding grown_size
  make_room c =
      if length c.list == c.list_size
      then (let size = grown_size c.list_size in
          let (w, got) = realloc c.world c.is_null (size * size_ptr % size_range) in
          if got
          then (record c { world = w; is_null = false; list_size = size }, true)
          else (record c { world = w; list_size = size; errno = some enomem }, false))
      else (c, true)

  -- The copy of an entry at the end of the list.
  unfoldable pub append_entry : Dirent → Scan rt → Scan rt × Bool
  append_entry d c =
      let (w, got) = malloc c.world size_dirent in
      if got
      then (record c { world = w; list = c.list ++ (d ∷ []) }, true)
      else (record c { world = w; errno = some enomem }, false)

  unfoldable pub append_if : Dirent → Scan rt × Bool → Scan rt × Bool
  unfolding append_entry
  append_if d (c, true) = append_entry d c
  append_if d (c, false) = (c, false)

  -- Whether an entry is selected; no selector selects all.
  abbrev pub takes_entry : Option (Dirent → Bool) → Dirent → Bool
  takes_entry none d = true
  takes_entry (some f) d = f d

  -- One round on an entry.
  unfoldable pub scan_entry : Option (Dirent → Bool) → Dirent → Scan rt → Scan rt × Bool
  unfolding make_room append_if
  scan_entry sel d c =
      let clear = record c { errno = none } in
      if takes_entry sel d then append_if d (make_room clear) else (clear, true)

  -- The loop over what `readdir` returns.
  unfoldable pub scan_dir : Option (Dirent → Bool) → List Dirent → Option Errno → Scan rt → Scan rt
  unfolding scan_entry
  scan_dir sel [] end c = elim end [ none ↦ c | some e ↦ record c { errno = some e } ]
  scan_dir sel (d ∷ ds) end c =
      let (next, go) = scan_entry sel d c in
      let rest = scan_dir sel ds end next in if go then rest else next

  -- `while( list_count > 0 ) free( list[ --list_count ] );`
  unfoldable pub free_entries : ℕ → World → World
  free_entries zero w = w
  free_entries (suc n) w = free_entries n (free w)

  -- `free( list )`; freeing NULL does nothing.
  unfoldable pub free_list : Bool → World → World
  free_list is_null w = if is_null then w else free w

  unfoldable pub sort_list : Option Compare → List Dirent → List Dirent
  sort_list none ds = ds
  sort_list (some compare) ds = qsort compare ds

  -- What follows the loop: `ok` is `*namelist`, whose length is the answer.
  unfoldable pub finish : Option Compare → Scan rt → World × Result (List Dirent)
  unfolding free_entries free_list sort_list
  finish compare c = elim c.errno [
    | none ↦ (c.world, ok (sort_list compare c.list))
    | some e ↦ (free_list c.is_null (free_entries (length c.list) c.world), fail e)
  ]

  -- `os2compat_scandir`
  unfoldable pub scandir :
      World → Dir Dirent → Option (Dirent → Bool) → Option Compare → World × Result (List Dirent)
  unfolding scan_dir finish
  scandir w (cannot_open e) sel compare = (w, fail e)
  scandir w (entries ds end) sel compare = finish compare (
      scan_dir sel ds end
        (record { world = w; list = []; is_null = true; list_size = 0; errno = none }))
