-- ===== src/Subagents.antt =====
-- The child agents (subagents/*.py): so far the manager of their background tasks.
pub mod TaskState
pub mod TaskCalls
pub mod Tasks
