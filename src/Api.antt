-- ===== src/Api.antt =====
-- src/app/api, src/app/main.py and src/app/schemas.
pub mod Requests
pub mod Status
pub mod Search
pub mod Ingest
pub mod Chat
pub mod Tests
