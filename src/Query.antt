-- ===== src/Query.antt =====
-- dnsviz/query.py: the retry attempts, the response handlers and the query handler.
pub mod Types
pub mod Serial
pub mod Handlers
pub mod Cookie
pub mod Pmtu
pub mod Chain
pub mod Causes
pub mod Quiet
pub mod Consult
pub mod Limits
