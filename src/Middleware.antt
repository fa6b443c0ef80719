-- ===== src/Middleware.antt =====
-- The HTTP middleware (internal/middleware): who asks in `Identity`, the handlers around a handler in
-- `Chain`, the recorder of the access log in `Recorder`.
pub mod Identity
pub mod Chain
pub mod Recorder
