-- ===== src/Publish.antt =====
-- The publish jobs: src/domain/publish-jobs, their repository and their source under
-- src/infrastructure, and what src/application/publish-jobs does with them.
pub mod Types
pub mod Transitions
pub mod Statements
pub mod Repository
pub mod Source
pub mod Steps
pub mod Commands
pub mod Classifier
pub mod Artifact
pub mod Engine
pub mod Heartbeat
pub mod Executor
mod Tests
