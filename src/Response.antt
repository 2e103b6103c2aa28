-- ===== src/Response.antt =====
-- dnsviz/response.py: DNS responses, their history and their classification.
pub mod History
pub mod Classify
pub mod Report
pub mod Replay
