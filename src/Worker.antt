-- ===== src/Worker.antt =====
-- internal/worker: the community measurement agent.
pub mod Executor
pub mod Agent
