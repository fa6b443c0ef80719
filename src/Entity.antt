-- ===== src/Entity.antt =====
-- The core voting model (internal/entity): error values in `Errors`, polls in `Poll`; what a ballot
-- check and a voting window decide is proved in `Ballot` and `Window`.
pub mod Errors
pub mod Poll
pub mod Ballot
pub mod Window
