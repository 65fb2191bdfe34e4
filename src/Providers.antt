-- ===== src/Providers.antt =====
-- backend/src/features/providers: errors, retries, circuits and the ordered fallback.
pub mod Types
pub mod Retry
pub mod Circuit
pub mod Fallback
