-- ===== src/Memory/Mmap.antt =====
-- memory/mmap.c: the data, the error codes and the flag words.
pub mod File
pub mod Object
pub mod Unmap
pub mod Place
pub mod Map
pub mod Registry
pub mod Placement
pub mod Lifecycle
pub mod Range
pub mod FileLaws
pub mod Sync
pub mod Alias
pub mod AliasEnds
pub mod Fork
pub mod Inherit
use os2compat.Prelude.{
  ℕ, zero, suc, ◌+◌, ◌/◌, ◌%◌, ◌^◌, ◌-◌, Bool, ◌||◌, ◌&&◌, Option, none, some, List, [], ◌∷◌, ◌==◌,
  leb, if◌then◌else◌, ℤ,
}
use os2compat.System.{Errno, eacces, eintr, einval, enoent, enomem}
use os2compat.Memory.Os.{Name}

-- `flags & mask` for a mask of one bit; no bit is set in a mask of 0.
abbrev pub has : ℕ → ℕ → Bool
has flags mask = flags / mask % 2 == 1

-- `flags | mask` for a mask of one bit.
abbrev pub set_flag : ℕ → ℕ → ℕ
set_flag flags mask = if has flags mask then flags else flags + mask

abbrev pub prot_read : ℕ
prot_read = 0x01

abbrev pub prot_write : ℕ
prot_write = 0x02

abbrev pub prot_exec : ℕ
prot_exec = 0x04

abbrev pub map_shared : ℕ
map_shared = 0x0001

abbrev pub map_private : ℕ
map_private = 0x0002

abbrev pub map_fixed : ℕ
map_fixed = 0x0010

abbrev pub map_allocated : ℕ
map_allocated = 0x0020

abbrev pub map_anon : ℕ
map_anon = 0x1000

abbrev pub ms_sync : ℕ
ms_sync = 0x0000

abbrev pub ms_async : ℕ
ms_async = 0x0001

abbrev pub ms_invalidate : ℕ
ms_invalidate = 0x0002

-- Addresses and `size_t` have 32 bits.
abbrev pub word : ℕ
word = 2 ^ 32

abbrev pub add_word : ℕ → ℕ → ℕ
add_word a b = (a + b) % word

abbrev pub sub_word : ℕ → ℕ → ℕ
sub_word a b = (a + word - b) % word

-- `(size_t)-1`
abbrev pub whole_file : ℕ
whole_file = 2 ^ 32 - 1

-- `struct os2_mmap_s` without its links: the list `m_mmap` is a list of these, the newest first.
pub record Mapping : Type 0 where
  pub addr : ℕ
  pub len : ℕ
  pub flags : ℕ
  pub fd : ℤ
  pub off : ℕ
  pub base : ℕ
  pub prot : ℕ
  pub shared_name : Name

-- An internal code: an OS/2 code, 0 for none, or the negative of an `errno`.
pub data Rc : Type 0 where
  os2 : ℕ → Rc
  libc : Errno → Rc

-- `rc2errno` on an OS/2 code that is not 0.
unfoldable pub os2_errno : ℕ → Errno
os2_errno rc =
    if rc == 2
    then enoent
    else if rc == 5 || rc == 212
    then eacces
    else if rc == 8
    then enomem
    else if rc == 95
    then eintr
    else einval

-- `rc2errno`; `none` is its 0.
unfoldable pub rc2errno : Rc → Option Errno
unfolding os2_errno
rc2errno (os2 zero) = none
rc2errno (os2 (suc n)) = some (os2_errno (suc n))
rc2errno (libc e) = some e

-- The test `addr` is in the mapping up to `addr + len`, with the sums as the machine makes them.
unfoldable pub covers : ℕ → ℕ → Mapping → Bool
covers addr len m = leb m.addr addr && leb (add_word addr len) (add_word m.addr m.len)

-- The first mapping that `covers` accepts, newest first.
unfoldable pub find_covering : ℕ → ℕ → List Mapping → Option Mapping
find_covering addr len [] = none
find_covering addr len (m ∷ ms) = if covers addr len m then some m else find_covering addr len ms

-- The first mapping with exactly this address and length.
unfoldable pub find_exact : ℕ → ℕ → List Mapping → Option Mapping
find_exact addr len [] = none
find_exact addr len (m ∷ ms) =
    if m.addr == addr && m.len == len then some m else find_exact addr len ms

-- The list without that mapping: what `mmapRemoveMmap` leaves.
unfoldable pub remove_exact : ℕ → ℕ → List Mapping → List Mapping
remove_exact addr len [] = []
remove_exact addr len (m ∷ ms) =
    if m.addr == addr && m.len == len then ms else m ∷ remove_exact addr len ms
