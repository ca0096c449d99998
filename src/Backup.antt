-- ===== src/Backup.antt =====
-- packages/soul/src/backup: what is backed up, how a backup is built and anchored, and when.
pub mod Types
pub mod Pattern
pub mod Classify
pub mod Scan
pub mod Detect
pub mod Merkle
pub mod Manifest
pub mod Upload
pub mod Anchor
pub mod Scheduler
