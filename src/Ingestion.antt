-- ===== src/Ingestion.antt =====
-- src/app/ingestion.
pub mod Chunker
pub mod Indexer
pub mod Loaders
pub mod Tests
