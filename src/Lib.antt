-- ===== src/Lib.antt =====
-- os2compat: compatibility functions for programs on OS/2 with kLIBC.
--
-- The parts below are modelled, each in the folder of its name.
--
-- * network/poll.c, `os2compat_poll`: Network/Poll. An array of entries is a function from
--   indices; both loops are functions that say what holds after `k` rounds (`prepare`,
--   `collect`). The record Prep is the local variables that the first loop sets. fstat(),
--   getsockopt() and DosQueryNPHState() are a Handles of System, the state of all descriptors at
--   one time; select() is a function that is given the sets and the timeout. Poll/Spec describes
--   the sets without the loop, Poll/Refine the whole call, and Poll/Events is about its timeout.
-- * network/xpoll.c, `os2compat_xpoll_*`: Network/XPoll, which calls the poll() of Network/Poll
--   as the code does. The array `fds` and the count `nfds` are the record XPollSet; `binsearch`,
--   `add`, `del`, `del_closed`, `query` and `wait` are the functions of the code. The loop of
--   `binsearch` has `nfds` rounds of fuel, since each round makes its range smaller, and the loop
--   of `wait` is given `nfds` rounds and only its own test ends it: `none` is that it has not
--   ended by then, which XPoll/Wait is about, by the state of the loop in XPoll/Scanned.
--   XPoll/Order and XPoll/Reach have the invariant, XPoll/Contents, XPoll/Removal and
--   XPoll/Closed the set of entries that the array stands for.
-- * network/select.c, `select`: Network/Select. A type for each kind of descriptor and each set; the
--   loop `setfd` is called in is the function `categorize`, by rounds. The local variables are the
--   record Run, and a block of the long function is a function on it that goes on, goes to the
--   label `cleanup` or returns (Select/Phases); Select/Wait has the block that waits, Select/Merge
--   what follows the label `mergefds`, Select/Call the whole. The calls of OS/2 and of the runtime
--   are a record Os of functions on the state of the world. The thread that waits for the sockets
--   either ends before the wait does or not, which is an argument of the call; in the second case
--   its effect comes where the code waits for the thread. Select/Sorted and Select/Bounded are
--   about the sets that `categorize` makes, Select/Merged about those that come back, Select/Laws,
--   Balance, Held, Cleanup and Closed about the handles that are open, Select/Ready and Files about
--   regular files, Select/Within, Origin and Reached about where a reported descriptor comes from.
-- * memory/mmap.c, `os2compat_mmap`, `os2compat_munmap`, `os2compat_mprotect`, `os2compat_msync`:
--   Memory/Mmap. The list `m_mmap` is a list of the record Mapping, the newest first. Every call
--   of OS/2 and of the C runtime is a field of the record Os in Memory/Os, a function of the
--   state of the world. Mmap/File has the transfer between file and memory, Mmap/Object the
--   memory objects, Mmap/Unmap the calls on a mapping, Mmap/Place the memory for a new one and
--   Mmap/Map the call that makes it; a function stands for each block of the long
--   `os2compat_mmap`, in the order of the code. Addresses and sizes have 32 bits: sums of them
--   are taken modulo 2 ^ 32. The loop of `readFromFile` has a round for each byte asked for,
--   since a round that goes on has read at least one. A position that lseek() answers has no bound,
--   and the code keeps it in an int of 32 bits. Mmap/Fork and Mmap/Alias are what a forked
--   child does with its parent's shared mappings; the loop of `aliasAtAddress` has a round for
--   each byte of its first chunk and each element of its array, since a round that goes on asks
--   for less or uses up an element.
-- * thread/semaphore.c, `os2compat_sem_*`: Thread/Semaphore. The structure is the record Sem, and
--   the calls of OS/2 are a record Os of that module. Semaphore/Laws relates the count and the
--   event semaphore, Semaphore/Reach has the interleavings of several threads as a step relation:
--   a step is what the mutexes of the code make indivisible.
-- * io/scandir.c, `os2compat_scandir`: Io/Scandir. The loop is recursion on the entries that
--   readdir() returns; of the heap the model knows the number of blocks.
-- * process/getrusage.c, `getrusage`: Process/Getrusage; its sums are of 32 bits.
-- * process/_response.c, `response_arg` and `response_env`: Process/Response, on the lines that
--   fgets() returns. The end of the process is `none`. Response/Restore relates `response_env` to
--   the bytes that `spawnve` writes.
-- * process/spawn.c, `spawnve`: Process/Spawn, with the calls made from it and those of
--   process/exec.c. A string is a list of bytes, and the sizes are taken to be below 2 ^ 31.
--   Spawn/Split is about the strings of the environment, Spawn/Listed about the response files.
-- * process/spawn2.c, `os2compat_spawn2ve`, `os2compat_spawn2vpe`: Process/Spawn2, with the wait
--   functions of that file. The static variables are the record Statics; the five functions that
--   wait and differ in their arguments only are one function with the name as an argument. The bit
--   P_2_XREDIR of the mode is the constructor of the argument `stdfds`. Spawn2/Child has the spawns,
--   Spawn2/Runtime the calls of the runtime and of OS/2, and Spawn2/Redirect is about the
--   handles of the child.
-- * process/posix_spawn/spawni.c, `__os2compat_spawni`: Process/Spawni, which calls Process/Spawn2.
--   The array of restore actions is a list with the last action first, so that the loop that
--   restores goes through it in order. Spawni/Restored and Spawni/Handles have the table of the
--   handles of the parent.
--
-- Assumptions. poll() and xpoll_wait() are given descriptors whose state does not change during
-- one call. A `read` never returns more than it was asked for, and OS/2 gives memory in whole
-- pages, each where a theorem names it. What lseek(), write() and close() do to the position and the
-- bytes of a file is in the records SeekLaws and ContentLaws, and how a file is read in lines in
-- ReadsAs. What select() and the spawns assume of the calls they
-- make is in the records HandleLaws, SetLaws, TableLaws and FileLaws. The loop that frees a
-- shared object until it fails takes its fuel from how often the process holds the object, a
-- number that is a parameter.
--
-- Not modelled: the contents of memory, the links of the list of mappings, `os2compat_alphasort`,
-- `os2compat_xpoll_destroy` (it frees the set), the other parts under io/, the forms of spawn and
-- exec with a variable number of arguments, the code behind ENABLE_CONSOLE and without
-- USE_SELECT_THREAD in network/select.c, and the lookups of names and interfaces, which are calls
-- of the system for the most part.
pub mod Prelude
pub mod System
pub mod Network
pub mod Memory
pub mod Thread
pub mod Io
pub mod Process
