-- ===== src/Retrieval.antt =====
-- src/app/retrieval.
pub mod Types
pub mod Rrf
pub mod Service
pub mod Pgvector
pub mod Benchmark
pub mod Faiss
pub mod Tests
