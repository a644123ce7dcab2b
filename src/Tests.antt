-- ===== src/Tests.antt =====
-- Runs of the definitions at concrete inputs, and the theorems at inputs that meet their hypotheses.
mod Fixture
mod Objects
mod Realms
mod Indexes
mod Writes
mod Limits
mod Pages
mod Sessions
mod Threads
mod Queue
mod Gets
mod Viewers
mod Settings
