-- ===== src/Socratic/Service.antt =====
-- packages/uc05/uc05/application/socratic_service.py over the in-memory repositories of
-- uc05/adapters/memory/repositories.py, which store deep copies: a dialogue that a call holds is a
-- value of its own until it is saved. Each call of a repository may fail, as uc05/ports/repositories.py
-- documents.
pub mod State
pub mod Turn
pub mod Reply
pub mod Ask
pub mod Safety
pub mod Steps
pub mod Invariant
pub mod Succeeds
pub mod Total
pub mod Opening
pub mod Toggle
pub mod Recorded
pub mod Asked
pub mod Reachable
