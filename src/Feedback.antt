-- ===== src/Feedback.antt =====
-- packages/uc10: ratings of responses, and the content review flags that they lead to.
pub mod Records
pub mod Flagging
pub mod Store
pub mod Review
pub mod Decision
pub mod Rating
mod Tests
