-- ===== src/Indexer.antt =====
-- The index of the chain's events (packages/indexer/src): its tables and the ingestion.
pub mod Maps
pub mod Store
pub mod Tables
pub mod Rollback
pub mod Queries
pub mod Runs
pub mod Ingest
pub mod Reorg
pub mod CatchUp
pub mod History
