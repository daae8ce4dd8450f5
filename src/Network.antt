-- ===== src/Network.antt =====
-- network/: poll() and the xpoll descriptor sets.
pub mod Poll
pub mod Select
pub mod XPoll
mod Tests
