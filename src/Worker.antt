-- ===== src/Worker.antt =====
-- The task worker: pkg/taskcore/worker.
pub mod Types
pub mod Config
pub mod State
pub mod Engine
pub mod Runtime
pub mod Lifecycle
pub mod Port
pub mod Slots
