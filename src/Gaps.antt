-- ===== src/Gaps.antt =====
-- packages/uc07: from a learner's history to the topics that are a struggle.
pub mod History
pub mod Signals
pub mod Grounded
pub mod Counting
pub mod Recommendations
pub mod Resolved
mod Tests
