-- ===== src/Io.antt =====
-- io/: the reading of a whole directory.
pub mod Scandir
mod Tests
