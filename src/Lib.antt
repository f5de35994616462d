-- ===== src/Lib.antt =====
-- The Lorenzo BTC staking submitter: a daemon that finds deposits on Bitcoin and on the BNB Smart
-- Chain, keeps them in a MySQL database, and submits them with their proofs to a Lorenzo node.
--
-- The BTC relayer (txrelayer/tx_relayer.go) runs three loops. The scanner reads the block after
-- the sync point once it is deep enough, inserts the block's deposits and moves the sync point.
-- The submitter takes the pending deposits that are deep enough in the node's light client, asks
-- the block explorer for a proof, submits it, and writes the outcome into the row. The third loop
-- refreshes the list of agents, whose addresses tell which outputs are deposits. The BNB relayer
-- (txrelayer/bnb_txrelayer.go) has a scanner that reads the receipts of windows of up to 1000
-- heights, and a submitter. A command of its own, the refresher (blockscout/refresher.go), makes
-- the Blockscout explorer update the balances that Lorenzo events touched. The two relayers share
-- the tables' database and the connection to the node.
--
--   Base/          numbers, lists, Go's errors, and calls that may panic or not return (`Run`)
--   Strconv        FormatUint and ParseUint of Go's library, which db/kv.go calls
--   Db/            db/types.go, db/kv.go, db/repository.go, db/bnb_repository.go and db/init.go; Orm is
--                  the interface to gorm, each statement with its documented meaning; Queue is what both
--                  tables of deposits are: rows with a key and a status, from which batches are taken
--   Btc/           btc/types.go, btc/query.go, btc/utils.go; Network and `Btcd` are the interfaces to
--                  net/http, the decoders and btcd
--   TxRelayer/     Agents (updateAgentsList and the lookups), Deposits (getValidDepositTxs), Scan
--                  (scanBlockLoop), Submit (submitLoop), Lorenzo (the interface to the node), Steps (the
--                  loops side by side), Startup (NewTxRelayer and NewBnbTxRelayer), Program (both
--                  relayers side by side, over one config table)
--   TxRelayer/Bnb  txrelayer/bnb_txrelayer.go: the rows made of receipts, Scan (scanLoop), Submit
--                  (submitLoop, submit) and Steps; the client of the chain is an interface
--   BnbClient/     bnbclient/client.go: the receipts of a block and the headers with their caches;
--                  StakePlan is bnbclient/stake_plan.go
--   BnbTypes/      bnbclient/bnbtypes: the header of a BNB block, its JSON and its RLP
--   Config/        config/config.go and config/log.go
--   Cmd/           cmd/root.go and cmd/utils.go: RootAction, the start of the relayers and the interrupt
--                  handlers; Refresh is cmd/refresh.go
--   Blockscout/    blockscout/refresher.go and types.go: the windows of heights whose events are refreshed
--   Tests/         a table in memory, a small network, and runs on them
--
-- State is passed explicitly: the scanner's is the two tables it writes, the submitter's is the
-- deposits table and the messages sent. Each pass through a loop is a function of the state and
-- of that pass's environment, so that the network, the node, the agents and the database may
-- answer differently each time; a statement of the database may fail at any time. A loop that
-- ends when `quit` is closed is a list of environments. A panic ends the process: `panicked`. A
-- loop that waits for the network runs on fuel, and `spinning` is a loop whose fuel is spent, or a
-- send on a channel that nothing receives from any more:
-- `patience` bounds the requests for a transaction's detail and the attempts for an event, and
-- the fuel of a refresh of the agents its pages; both are any number, and enough whenever the
-- answer comes within it.
--
-- A `uint64` is a natural number, with the wrap-around written out where the code adds or
-- subtracts. A time is its Unix time. The database compares strings exactly, as it does for the
-- hexadecimal transaction hashes and the fixed keys that the code looks up. In the functions of
-- one pass the statements of a loop see no other loop's writes, and the agents are read once.
-- `TxRelayer.Steps` and `TxRelayer.Bnb.Steps` put the transactions of a scanner and of a submitter
-- in any order, with crashes between them, and `TxRelayer.Program` those of both relayers, with
-- restarts of the process, each with the initialisation of the sync points. A run keeps what took
-- its steps: the passes, each with the world it had, so that a statement about a run speaks of the
-- answers that its own passes got. A submitter of the BNB relayer may see between two rows that
-- `quit` is closed, and `MustGetAddr` is an address or a panic.
--
-- The client of the BNB chain gets a node that may answer differently for each block, and the
-- order in which Go visits a map is a parameter. A hash of a block or of a transaction is its text
-- there, and bytes in the header. The interrupt handlers are functions on the relayers and the
-- loop variable that they share. Whether the loops of a relayer end once its quit channel is closed
-- is a parameter, `loops_end`: the loop that asks for a transaction until the explorer answers
-- never looks at `quit`, and a call of a client may not return.
--
-- Not modelled: a refresh of the agents in the middle of a pass, logging and waiting, the parsing of
-- the command line (cobra hands RootAction its flags), what the drivers do when a connection is
-- opened, an interrupt that its handler has not finished when the next relayer starts, and the byte
-- formats of JSON, RLP and Keccak.
pub mod Base
pub mod Strconv
pub mod Db
pub mod Btc
pub mod TxRelayer
pub mod Tests
pub mod Blockscout
pub mod BnbClient
pub mod BnbTypes
pub mod Cmd
pub mod Config
