-- ===== src/Aggregate.antt =====
-- dnsviz/query.py and dnsviz/response.py: queries with their responses, and what is put together from
-- the responses.
pub mod Table
pub mod Queries
pub mod Predicates
pub mod Multi
pub mod Rrsets
