-- ===== src/Analysis.antt =====
-- dnsviz/analysis/offline.py: the assessment of what the analysis of a name collected.
pub mod Delegation
pub mod Edns
pub mod Cookies
pub mod Cnames
pub mod Servers
pub mod Responses
pub mod Responsiveness
