-- ===== src/Queue.antt =====
-- src/config/dispatch-policy.ts and src/execution/queue-state.ts: whether the queue of a workspace
-- may dispatch. Two files are read at every admission, and both fail closed.
pub mod Policy
pub mod Pause
