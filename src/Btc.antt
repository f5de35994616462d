-- ===== src/Btc.antt =====
-- The btc package: the types of the block explorer's API, its client, and the reading of payments.
pub mod Types
pub mod Network
pub mod Query
pub mod Utils
