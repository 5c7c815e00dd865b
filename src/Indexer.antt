-- ===== src/Indexer.antt =====
-- services/indexer/src: the reorg-safe indexer and its snapshot, tree and manifest pipeline.
pub mod Events
pub mod Blocks
pub mod Snapshot
pub mod Cumulative
pub mod Reconcile
pub mod Merkle
pub mod Store
pub mod Ingest
pub mod Manifest
pub mod Epoch
pub mod BalanceRows
mod Tests
