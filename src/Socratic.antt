-- ===== src/Socratic.antt =====
-- packages/uc05: the Socratic dialogue.
pub mod Vocabulary
pub mod Machine
pub mod Dialogue
pub mod Repeat
pub mod Service
mod Tests
