-- ===== src/Content.antt =====
-- Content jobs: a transcript is processed by a worker, under a lease.
pub mod Types
pub mod Transitions
pub mod Results
pub mod Statements
pub mod Source
pub mod Recovery
pub mod Repository
pub mod Creation
pub mod Steps
pub mod Commands
pub mod Executor
mod Tests
