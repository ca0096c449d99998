-- ===== src/Recovery.antt =====
-- packages/soul/src/recovery: from a manifest's CID back to the files.
pub mod Chain
pub mod Download
pub mod Integrity
pub mod Restore
pub mod Registry
mod Tests
pub mod Crypto
pub mod Resolver
