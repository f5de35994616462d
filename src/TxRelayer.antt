-- ===== src/TxRelayer.antt =====
-- The txrelayer package: txrelayer/tx_relayer.go, txrelayer/common.go and txrelayer/bnb_txrelayer.go.
pub mod Common
pub mod Program
pub mod Startup
pub mod Lorenzo
pub mod Agents
pub mod Deposits
pub mod Scan
pub mod Submit
pub mod Bnb
pub mod Steps
