-- ===== src/Memory/Mmap/Sync.antt =====
-- memory/mmap.c: what the flags of `os2compat_msync` change.
use os2compat.Prelude.{
  ℕ, pos, ◌<◌, ◌^◌, ◌%◌, ◌==◌, ◌≡◌, refl, sym, ap, ◌∙◌, inl, inr, true, false, Option, none, some,
  Bool-cases, arith,
}
use os2compat.System.{ok, fail, Status}
use os2compat.Memory.Os.{Os, seek_cur}
use os2compat.Memory.Mmap.{
  has, prot_write, map_shared, map_anon, ms_sync, ms_async, ms_invalidate, add_word, sub_word,
  Mapping, find_covering,
}
use os2compat.Memory.Mmap.File.{to_int, write_to_file}
use os2compat.Memory.Mmap.FileLaws.{write_to_file_blind}
use os2compat.Memory.Mmap.Unmap.{
  Process, must_sync, sync_write, sync_read, sync_mapping, sync_refused, msync,
}

must_sync-parts :
    (m : Mapping)
    → must_sync m ≡ true
    → (has m.flags map_anon ≡ false)
      × (has m.flags map_shared ≡ true)
      × (has m.prot prot_write ≡ true)
unfolding must_sync
must_sync-parts m due = (ground arith, ground arith, ground arith)

module _ (os : Os) where
  open os use {World, getpagesize, lseek}

  -- Flags without the bit of MAP_SHARED never read the file again.
  sync_read_skips :
      (flags : ℕ) (m : Mapping) (r : World × Status)
      → has flags map_shared ≡ false
      → sync_read os flags m r ≡ r
  unfolding sync_read
  sync_read_skips flags m (w, fail e) h = refl
  sync_read_skips flags m (w, ok _) h = elim (Bool-cases (has flags ms_invalidate)) [
    | inl i ↦ rw (i, h) refl
    | inr i ↦ rw i refl
  ]

  sync_mapping-invalidate :
      (w : World) (addr len : ℕ) (m : Option Mapping)
      → sync_mapping os w addr len ms_invalidate m ≡ sync_mapping os w addr len ms_sync m
  unfolding sync_mapping sync_write
  sync_mapping-invalidate w addr len none = refl
  sync_mapping-invalidate w addr len (some m) = elim (Bool-cases (has m.flags map_anon)) [
    | inl a ↦ rw a refl
    | inr a ↦ rw a (
        sync_read_skips ms_invalidate m (sync_write os w addr len ms_invalidate m) refl
        ∙ sym (sync_read_skips ms_sync m (sync_write os w addr len ms_sync m) refl))
  ]

  -- msync() with MS_INVALIDATE does exactly what it does with MS_SYNC: the file is not read again,
  -- because the code looks for MAP_SHARED among the flags of the call.
  pub msync_invalidate :
      (p : Process World) (addr len : ℕ)
      → msync os p addr len ms_invalidate ≡ msync os p addr len ms_sync
  unfolding msync sync_refused
  msync_invalidate p addr len = elim (Bool-cases (addr % getpagesize == 0)) [
    | inl a ↦ rw a (sync_mapping-invalidate p.world addr len (find_covering addr len p.maps))
    | inr a ↦ rw a refl
  ]

  sync_read_async : (m : Mapping) (r : World × Status) → sync_read os ms_async m r ≡ r
  unfolding sync_read
  sync_read_async m (w, fail e) = refl
  sync_read_async m (w, ok _) = refl

  sync_mapping-async :
      (w : World) (addr len : ℕ) (m : Option Mapping)
      → (sync_mapping os w addr len ms_async m).0 ≡ w
  unfolding sync_mapping sync_write
  sync_mapping-async w addr len none = refl
  sync_mapping-async w addr len (some m) = elim (Bool-cases (has m.flags map_anon)) [
    | inl a ↦ rw a refl
    | inr a ↦
        rw a (
          ap (λ (r : World × Status). r.0)
            (sync_read_async m (sync_write os w addr len ms_async m)))
  ]

  -- msync() with MS_ASYNC touches nothing, whatever it answers.
  msync_async : (p : Process World) (addr len : ℕ) → (msync os p addr len ms_async).0 ≡ p.world
  unfolding msync sync_refused sync_mapping sync_write
  msync_async p addr len = elim (Bool-cases (addr % getpagesize == 0)) [
    | inl a ↦ rw a (sync_mapping-async p.world addr len (find_covering addr len p.maps))
    | inr a ↦ rw a refl
  ]

  write_ok :
      (flags : ℕ) (m : Mapping) (r : World × Status)
      → has flags map_shared ≡ false
      → r.1 ≡ ok tt
      → sync_read os flags m r ≡ (r.0, ok tt)
  write_ok flags m r h good = sync_read_skips flags m r h ∙ ap (λ (s : Status). (r.0, s)) good

  -- msync() with MS_SYNC, of an aligned range in a mapping that must be written back, answers
  -- success whenever the position of the file can be read and is below 2 GB, even where the write
  -- itself fails.
  pub msync_blind :
      (p : Process World) (addr len position : ℕ) (m : Mapping)
      → addr % getpagesize ≡ 0
      → find_covering addr len p.maps ≡ some m
      → must_sync m ≡ true
      → position < 2 ^ 31
      → (lseek p.world m.fd (pos 0) seek_cur).1 ≡ ok position
      → msync os p addr len ms_sync ≡ (
        (write_to_file os p.world m.fd (to_int (sub_word (add_word m.off addr) m.addr)) addr len).0,
        ok tt,
      )
  unfolding msync sync_refused sync_mapping sync_write
  msync_blind p addr len position m even found due small known =
      let off = to_int (sub_word (add_word m.off addr) m.addr) in
      let a : (addr % getpagesize == 0) ≡ true = ground arith in
      let (file, shared, writable) = must_sync-parts m due in
      rw (a, found, file, shared, writable)
        (write_ok ms_sync m (write_to_file os p.world m.fd off addr len) refl
          (write_to_file_blind os p.world m.fd off addr len position small known))
