-- ===== src/Dns.antt =====
-- The data of the third-party DNS library (dnspython) that the program reads and writes.
pub mod Message
pub mod Api
pub mod Names
