-- ===== src/Status.antt =====
-- dnsviz/analysis/status.py: the statuses of signatures, delegations and denials of existence.
pub mod Issue
pub mod Rrsig
pub mod Ds
