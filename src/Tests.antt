-- ===== src/Tests.antt =====
-- Concrete runs: a table in memory, a small network, and the properties at inputs where their
-- hypotheses hold.
pub mod Table
pub mod Root
pub mod Program
pub mod World
pub mod Db
pub mod Btc
pub mod Relayer
pub mod Steps
pub mod Submit
pub mod Bnb
pub mod Blockscout
pub mod BnbClient
pub mod BnbTypes
pub mod StakePlan
pub mod Events
pub mod Cmd
pub mod Config
pub mod Startup
