-- ===== src/Http.antt =====
-- common/http/src: sending lines to the ingestion service.
pub mod Limit
pub mod Retry
pub mod Batch
