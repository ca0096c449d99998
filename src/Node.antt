-- ===== src/Node.antt =====
-- packages/node: the registries of nodes and the manager of nodes.
pub mod Types
pub mod Registry
pub mod Order
pub mod Json
pub mod Table
pub mod Stores
pub mod Manager
pub mod Quota
mod Tests
pub mod Processes
