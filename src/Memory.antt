-- ===== src/Memory.antt =====
-- memory/: mmap(), munmap(), mprotect() and msync() on OS/2 memory objects.
pub mod Os
pub mod Mmap
mod Tests
