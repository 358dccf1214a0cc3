-- ===== src/Publish/Repository.antt =====
-- src/infrastructure/repositories/drizzle-publish-job-repository.ts
pub mod Settle
pub mod Leases
pub mod Cancel
pub mod Recovery
pub mod Events
