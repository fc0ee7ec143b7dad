-- ===== src/Coordinator.antt =====
-- internal/coordinator: the handlers of the worker-facing API and of the admin surface.
pub mod Auth
pub mod Leasing
pub mod Uploads
pub mod Endpoints
