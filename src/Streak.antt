-- ===== src/Streak.antt =====
-- packages/uc08: streaks, freeze offers and milestone badges.
pub mod Time
pub mod Records
pub mod Rules
pub mod Store
pub mod Writer
pub mod Badges
pub mod Freeze
pub mod Service
pub mod Answer
mod Tests
