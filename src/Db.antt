-- ===== src/Db.antt =====
-- The db package: the tables, the queries that the repositories send through gorm, and the
-- repositories.
pub mod Types
pub mod Connection
pub mod Orm
pub mod Kv
pub mod Insertion
pub mod Queue
pub mod Reliable
pub mod BtcRepository
pub mod BnbRepository
