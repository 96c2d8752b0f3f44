-- ===== src/Engine.antt =====
-- src/engine/engine.cpp: what the engine changes in a contact.
--
-- Compatible has the removal of details and values that cannot be stored, Avatar the order of the
-- avatars.
pub mod Compatible
pub mod Avatar
mod Unique
mod Pruned
mod Ordered
mod Tests
