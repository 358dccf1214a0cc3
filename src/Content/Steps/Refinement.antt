-- ===== src/Content/Steps/Refinement.antt =====
-- Every method keeps to the step relations, whatever the database reports.
pub mod Source
pub mod Recovery
pub mod Repository
