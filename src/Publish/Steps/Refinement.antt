-- ===== src/Publish/Steps/Refinement.antt =====
-- Every method of the repository and of the source stays within the step relation, whatever it
-- returns or throws.
mod Settle
mod Leases
mod Recovery
pub use Settle.*
pub use Leases.*
pub use Recovery.*
