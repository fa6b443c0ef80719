-- ===== src/Controller.antt =====
-- The HTTP handlers (internal/controller): requests and responses in `Dto`, the handlers in
-- `Handlers` and `Probes`, the router in `Router`. What requests are answered is in `Answers`,
-- `Gate` (the admin routes), `OneResponse` and `Casting` (a ballot).
pub mod Dto
pub mod Handlers
pub mod Probes
pub mod Router
pub mod Answers
pub mod Gate
pub mod OneResponse
pub mod Casting
