-- ===== src/Process.antt =====
-- process/: the times of a process, the arguments that a program begins with, and child processes.
pub mod Getrusage
pub mod Response
pub mod Spawn
pub mod Spawn2
pub mod Spawni
mod Tests
