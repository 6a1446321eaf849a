-- ===== src/Gfs.antt =====
-- The grandfather-father-son rotation (bdbackup/gfs).
pub mod Calendar
pub mod Stages
pub mod Config
pub mod Structure
pub mod Policy
pub mod Store
pub mod Runner
pub mod Run
