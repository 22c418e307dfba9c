-- ===== src/Stages.antt =====
-- The stages of engines/: the same engine over other containers.
pub mod MapLadder
pub mod HashIndex
pub mod Slots
pub mod V4
pub mod V5
pub mod Agreement
