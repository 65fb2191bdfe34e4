-- ===== src/Pii.antt =====
-- backend/src/features/pii: personal data in a prompt is detected, classified, masked and scored.
pub mod Spans
pub mod Dedupe
pub mod Masker
pub mod Detector
pub mod Prompt
pub mod Risk
mod Tests
