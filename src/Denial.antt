-- ===== src/Denial.antt =====
-- Denial of existence: NSECSet of dnsviz/response.py and the NSEC statuses of
-- dnsviz/analysis/status.py.
pub mod NsecSet
pub mod Covering
pub mod Closest
pub mod Encloser
pub mod Wildcard
pub mod Status
pub mod Nsec3
