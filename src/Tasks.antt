-- ===== src/Tasks.antt =====
-- z2c/src/core/tasks: the durable task queue of the GLM lane. `Model` has the records, `Store` the
-- state that is persisted.
pub mod Model
pub mod Idempotency
pub mod Store
pub mod Recovery
pub mod Engine
pub mod View
pub mod Fixtures
