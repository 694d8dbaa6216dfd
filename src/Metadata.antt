-- ===== src/Metadata.antt =====
-- src/metadata.rs and src/migrations: the tables of the metadata store after the last migration.
-- Children model the statements by table and prove what they keep.
pub mod Files
pub mod Chunks
pub mod Tables
pub mod Links
pub mod Deletion
pub mod Reconcile
pub mod Stats
pub mod Refs
pub mod Consistency
pub mod Orphans
pub mod Shrinking
pub mod Catalog
