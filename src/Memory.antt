-- ===== src/Memory.antt =====
-- The semantic memory of packages/claw-mem: the tables of observations and sessions, the compaction of
-- chat messages, and the context that is put into a prompt.
pub mod Types
pub mod Sql
pub mod Observations
pub mod Compactor
pub mod Context
pub mod Search
pub mod Recall
mod Tests
pub mod Sessions
pub mod Hooks
pub mod Archives
