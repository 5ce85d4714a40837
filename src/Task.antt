-- ===== src/Task.antt =====
-- internal/task: what a capture task is made of, and the manager of the tasks.
pub mod Flows
pub mod Dispatch
pub mod Wrapper
pub mod Stats
pub mod Lifecycle
pub mod Store
pub mod Assembly
pub mod Manager
