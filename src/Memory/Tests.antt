-- ===== src/Memory/Tests.antt =====
-- memory/mmap.c: the theorems at concrete calls, on a small OS/2 with a file of ten bytes.
use os2compat.Prelude.{
  ℕ, ◌+◌, ◌-◌, ◌*◌, ◌^◌, ◌≡◌, ◌≤◌, refl, ap, inl, inr, if◌then◌else◌, leb, true, false, [], ◌∷◌, ℤ,
  pos, negsuc, Bool-cases, arith,
}
use os2compat.System.{ebadf, einval, Result, ok, fail}
use os2compat.Memory.Os.{Os, Whence, seek_set, seek_cur}
use os2compat.Memory.Mmap.{
  map_shared, map_private, map_anon, prot_read, prot_write, ms_sync, Mapping, covers, find_covering,
}
use os2compat.Memory.Mmap.Object.{set_mem}
use os2compat.Memory.Mmap.Place.{refused, place}
use os2compat.Memory.Mmap.File.{
  to_int, kept_position, read_from, read_at, restore_position, read_loop, read_from_file,
  write_to_file,
}
use os2compat.Memory.Mmap.FileLaws.{ReadsAtMost, SeekLaws, Seekable, read_loop-enough, restores}
use os2compat.Memory.Mmap.Unmap.{Process, msync, munmap, mprotect, must_sync}
use os2compat.Memory.Mmap.Placement.{GivesPages}
use os2compat.Memory.Mmap.Map.{mmap}
use os2compat.Memory.Mmap.Registry.{released, munmap_lem}
use os2compat.Memory.Mmap.Lifecycle.{Mapped, mmap-Mapped, munmap-mmap}
use os2compat.Memory.Mmap.Range.{SomeWithin, mprotect-Within, mprotect_wraps}
use os2compat.Memory.Mmap.Alias.{Attempt, attempts}
use os2compat.Memory.Mmap.AliasEnds.{attempts-enough}
use os2compat.Memory.Mmap.Fork.{fork_op_fork_child, get_object, fork_child_callback}
use os2compat.Memory.Mmap.Inherit.{run_steps, fork_child_callback_lem}
use os2compat.Memory.Mmap.Sync.{msync_invalidate, msync_blind}

-- The next free page, the file's position, and how often memory was protected.
record Sim : Type 0 where
  next : ℕ
  position : ℕ
  sets : ℕ

abbrev alloc : Sim → Sim × ℕ × ℕ
alloc s = (record s { next = s.next + 1 }, 0, s.next * 4096)

abbrev sim_seek : Sim → ℤ → Whence → Sim × Result ℕ
sim_seek s (pos n) seek_set = (record s { position = n }, ok n)
sim_seek s (pos n) seek_cur = (s, ok (s.position + n))
sim_seek s (negsuc n) how = (s, fail einval)

abbrev at_most : ℕ → ℕ → ℕ
at_most a b = if leb a b then a else b

abbrev sim_read : Sim → ℕ → Sim × Result ℕ
sim_read s len =
    let n = at_most len (10 - s.position) in (record s { position = s.position + n }, ok n)

abbrev sim : Os
sim = record {
  World = Sim;
  getpagesize = 4096;
  cch_max_path = 260;
  dos_query_mem = λ s a. (0, true, false);
  dos_alloc_mem_ex = λ s a len fl. alloc s;
  dos_set_mem = λ s a len fl. (record s { sets = s.sets + 1 }, 0);
  dos_alloc_shared_mem = λ s name len fl. alloc s;
  dos_get_named_shared_mem = λ s name fl. (s, 2, 0);
  dos_get_shared_mem = λ s a fl. (s, 0);
  dos_alloc_mem = λ s len fl. alloc s;
  dos_alias_mem = λ s a len fl. alloc s;
  dos_free_mem = λ s a. (s, 5);
  dos_free_mem_ex = λ s a. (s, 0);
  load_ulong = λ s a. 0;
  store_ulong = λ s a n. s;
  malloc = λ s. (s, ok tt);
  lseek = λ s fd n how. sim_seek s n how;
  errno = λ s. ebadf;
  read = λ s fd buf len. sim_read s len;
  write = λ s fd buf len. (s, fail ebadf);
  filelength = λ s fd. (s, pos 10);
  may_write = λ s fd. true;
  set_cloexec = λ s fd. s;
  dup = λ s fd. (s, ok (pos 9));
  close = λ s fd. s;
  fh_to_path = λ s fd n. ok (b'C' ∷ b':' ∷ b'/' ∷ b'f' ∷ []);
  holds = λ s a. 0;
}

abbrev start : Sim
start = record { next = 3; position = 4; sets = 0 }

abbrev file_map : Mapping
file_map = record {
  addr = 8192;
  len = 4096;
  flags = map_shared;
  fd = pos 9;
  off = 0;
  base = 4096;
  prot = prot_write;
  shared_name = [];
}

abbrev high_map : Mapping
high_map = record file_map { addr = 2 ^ 32 - 8192; flags = map_private }

abbrev proc : Process Sim
proc = record { world = start; maps = high_map ∷ file_map ∷ [] }

sim-GivesPages : GivesPages sim
sim-GivesPages = record {
  ex = λ s a len fl h. omega arith;
  shared = λ s n len fl h. omega arith;
  alias = λ s a len fl h. omega arith;
}

sim-SeekLaws : SeekLaws sim
sim-SeekLaws = record { there = λ s fd n m h. ap ok (omega arith); negative = λ s fd n m h. cc }

at_most-le : (a b : ℕ) → at_most a b ≤ a
at_most-le a b = elim (Bool-cases (leb a b)) [
  | inl e ↦ rw e (omega arith)
  | inr e ↦ rw e (ground arith)
]

got : Result ℕ → ℕ
got (ok n) = n
got (fail e) = 0

sim-ReadsAtMost : ReadsAtMost sim
unfolding got
sim-ReadsAtMost s fd buf len n h =
    let e : at_most len (10 - s.position) ≡ n = ap got h in
    rw (← e) (at_most-le len (10 - s.position))

-- Rounds enough for ten bytes do what a hundred rounds do.
read_loop-enough_example :
    read_loop sim 10 start (pos 9) 0 10 ≡ read_loop sim 100 start (pos 9) 0 10
read_loop-enough_example =
    read_loop-enough sim sim-ReadsAtMost 10 100 start (pos 9) 0 10 (omega arith) (omega arith)
      (omega arith)

sim-Seekable : Seekable sim (pos 9)
sim-Seekable w n = (n, refl)

-- A read, and a write that fails.
restores_example :
    ((sim_seek (read_from_file sim start (pos 9) (pos 2) 0 10).0 (pos 0) seek_cur).1 ≡ ok 4)
    × ((sim_seek (write_to_file sim start (pos 9) (pos 2) 0 10).0 (pos 0) seek_cur).1 ≡ ok 4)
restores_example =
    (restores sim sim-SeekLaws start (pos 9) (pos 2) 0 10 4 refl).1 (omega arith) sim-Seekable

-- What the first part of `restores` is for: the read succeeds.
read_from_file_ok : (read_from_file sim start (pos 9) (pos 2) 0 10).1 ≡ ok tt
unfolding read_from_file kept_position to_int read_from read_at read_loop restore_position
read_from_file_ok = refl

munmap_lem_example :
    munmap sim (record { world = start; maps = high_map ∷ file_map ∷ [] }) (2 ^ 32 - 8192) 4096
    ≡ (record { world = released sim start high_map; maps = file_map ∷ [] }, ok tt)
unfolding must_sync
munmap_lem_example =
    ((munmap_lem sim proc (2 ^ 32 - 8192) 4096).2 [] (file_map ∷ []) high_map refl refl tt refl).0
      refl

-- Private memory: the first page that is free.
mmap-Mapped_example :
    Mapped 4096 proc.maps 100 prot_read map_private 0
      (mmap sim proc 0 100 prot_read map_private (pos 9) 0)
mmap-Mapped_example = mmap-Mapped sim sim-GivesPages proc 0 100 prot_read map_private (pos 9) 0 refl

-- Anonymous shared memory, mapped and unmapped.
munmap-mmap_example :
    let (q, r) = mmap sim proc 0 100 prot_write (map_shared + map_anon) (negsuc 0) 0 in
    let (t, s) = munmap sim q 12288 100 in (s ≡ ok tt) × (t.maps ≡ proc.maps)
unfolding mmap refused place find_covering covers
munmap-mmap_example =
    munmap-mmap sim sim-GivesPages proc
      (mmap sim proc 0 100 prot_write (map_shared + map_anon) (negsuc 0) 0).0 0 100 prot_write
      (map_shared + map_anon) (negsuc 0) 0 12288 refl refl

mprotect-Within_example :
    (SomeWithin 8192 100 proc.maps
      → mprotect sim proc 8192 100 prot_read ≡ (record start { sets = 1 }, ok tt))
    × (¬ SomeWithin 8192 100 proc.maps
        → mprotect sim proc 8192 100 prot_read ≡ (start, fail einval))
unfolding set_mem
mprotect-Within_example =
    mprotect-Within sim proc 8192 100 prot_read refl (omega arith) (omega arith, (omega arith, tt))

-- A range that leaves the highest mapping and the address space.
mprotect_wraps_example :
    (mprotect sim proc (2 ^ 32 - 8192) 12288 prot_read ≡ (record start { sets = 1 }, ok tt))
    × (¬ SomeWithin (2 ^ 32 - 8192) 12288 proc.maps)
unfolding set_mem
mprotect_wraps_example =
    mprotect_wraps sim proc (2 ^ 32 - 8192) 12288 prot_read refl (omega arith) (omega arith)
      (omega arith) (omega arith, (omega arith, tt)) (inl (omega arith, omega arith))

msync_invalidate_example : msync sim proc 8192 4096 2 ≡ msync sim proc 8192 4096 0
msync_invalidate_example = msync_invalidate sim proc 8192 4096

-- The simulated `write` always fails.
msync_blind_example :
    msync sim proc 8192 4096 ms_sync
    ≡ ((write_to_file sim start (pos 9) (pos 0) 8192 4096).0, ok tt)
unfolding must_sync find_covering covers to_int
msync_blind_example = msync_blind sim proc 8192 4096 4 file_map refl refl refl (omega arith) refl

-- The loop of `aliasAtAddress` close to its end.
abbrev near_end : Attempt Sim
near_end = record { world = start; tmps = λ i. 0; cb_tmp = 8; i_tmp = 505 }

attempts-enough_example :
    attempts sim 20 4096 8 20000 near_end ≡ attempts sim 1000 4096 8 20000 near_end
attempts-enough_example =
    attempts-enough sim 4096 8 20000 20 1000 near_end (omega arith) (omega arith) (omega arith)

fork_child_callback_lem_example :
    fork_child_callback sim fork_op_fork_child (λ i. 0) (high_map ∷ file_map ∷ []) start
    ≡ run_steps sim (get_object sim (λ i. 0) file_map ∷ []) start
fork_child_callback_lem_example =
    fork_child_callback_lem sim fork_op_fork_child (λ i. 0) (high_map ∷ file_map ∷ []) start
