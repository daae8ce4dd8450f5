-- ===== src/Thread.antt =====
-- thread/: POSIX semaphores on the event and mutex semaphores of OS/2.
pub mod Semaphore
mod Tests
