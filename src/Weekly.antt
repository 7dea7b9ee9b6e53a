-- ===== src/Weekly.antt =====
-- packages/uc08: the weekly summaries.
pub mod Records
pub mod Service
pub mod Skipped
pub mod Safety
pub mod Once
mod Tests
