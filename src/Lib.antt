-- ===== src/Lib.antt =====
-- TruthSeeker: contracts that prove facts about people without showing them, run by a Hyli node.
--
-- The program. A user's request reaches the server (app_scaffold/server), which posts a blob
-- transaction to the node: each blob is a call of a contract, and blobs may call one another. The
-- contracts (app_scaffold/contracts, manual_Scaffold/wallet/contracts/wallet and
-- manual_Scaffold/hyli/crates/contracts) are run inside a zero-knowledge proof, through the contract
-- SDK (manual_Scaffold/hyli/crates/contract-sdk), and the node settles a transaction by the outputs
-- that these proofs show.
--
-- The files.
-- Common: the names that all modules share. Tests are Boolean tests with their laws, Lists and Maps
--   what Vec, VecDeque, HashMap and BTreeMap do, Results the chains of `?`, Words the `u128`, Utf8 `from_utf8`.
-- Sdk: Types is hyle-model/src/contract.rs; Context is contract-sdk/src/caller.rs and utils.rs
--   (parse_raw_calldata, parse_calldata, check_caller_callees, is_in_callee_blobs), Output is
--   as_hyle_output, Guest is the loop of guest.rs with the traits of lib.rs, Secp256k1 is secp256k1.rs.
--   Callers, Callees, Guest/Chains and Secp256k1/Check hold the proofs.
-- App: ZkPassport is zkpassport/src/lib.rs and the handler of its client, Counter is contract1 (and
--   contract2, which has the same text), Server is server/src/app.rs and init.rs.
-- Hyllar: contracts/hyllar/src/lib.rs and erc20.rs, the token; Balances, Supply, Moves and Actions.
-- Amm: contracts/amm/src/lib.rs, the exchange; Product, Pairs, Swaps and Calls.
-- Hydentity: contracts/hydentity/src/lib.rs and identity_provider.rs, the names with their passwords;
--   Ids and Logins.
-- UuidTld: contracts/uuid-tld/src/lib.rs, the UUIDs that are claimed as names; Claims.
-- SmtToken: contracts/smt-token/src/lib.rs and account.rs, the token whose accounts are in a tree;
--   Roots, Transfers and Callers.
-- Wallet: wallet/src/lib.rs, the accounts; View is `WalletZkView` with its commitment. Account,
--   Sessions, Authentication, View/Commitment and View/Execute hold the proofs.
-- Node: hyle-modules/src/node_state.rs and node_state/, the node's state. Types is the data, Changes
--   what a settlement collects, Registration is contract_registration.rs, Tld is hyle_tld.rs with
--   validate_hyle_contract_blobs in Tld/Privileged, Orders is ordered_tx_map.rs with its
--   specification in Orders/Arrivals, Outputs is verify_hyle_output with the BlobsHashes of
--   hyle-model/src/transaction.rs, Proofs is handle_blob_proof with the Block of
--   hyle-model/src/block.rs, Settlement is process_proof and settle_blobs_recursively with their
--   specification in Settlement/Outcomes, Store is the store with try_to_settle_blob_tx, the timeout
--   windows and timeouts.rs, Sequencing is handle_blob_tx with hyle-verifiers/src/lib.rs's native
--   output, Effects is on_settled_blob_tx, Blocks is settle_txs_until_done, Handling is
--   handle_signed_block with clear_timeouts and the order of transactions of hyle-model/src/block.rs.
-- Staking: contracts/staking/src/state.rs and fees.rs, the stakes, the bonded validators and the
--   fees. Order is the sorting of keys, Sums the sums of stakes; Power, Bonds and Conservation hold the
--   proofs. Contract is contracts/staking/src/lib.rs, the actions on them.
-- Consensus: manual_Scaffold/hyli/src/consensus.rs and consensus/, the agreement on the next block.
--   Types is the data, Actions the monad of a handler, Rounds the certificates and the passage to the
--   next round, Leader, Follower and Timeouts the roles, Messages the dispatch. Moves is the abstract
--   view of a node (its slot, its view, whether it joins, and what it has committed) with the moves that
--   the handlers implement, which Moves/Runs puts together; Checks holds what the tests of certificates, votes and proposals give.
-- Tests: each theorem at a concrete input.
--
-- How code becomes definitions. A struct is a record, an enum a data type, a method by `&mut self` a
-- function that returns the new state with its result. A map is an association list in which each
-- key stands once. A `Result` with a text is a `Result` whose errors and replies are constructors. A
-- panic is an outcome of its own. A `u128` wraps round at 2^128, as in the release builds that the
-- proofs run.
--
-- A handler of the consensus changes its state, sends messages and may fail; what it has changed
-- before it fails stays changed, and the messages stay sent. The messages are a list in the state, and
-- sending does not fail. The clock stands still while a message is handled.
--
-- Parameters. borsh, SHA-256, hex, the sparse Merkle tree, the node's HTTP client, the bus and the
-- proving systems are not in the repository, and the hash of a blob is an argument like them. They
-- are arguments of the definitions that use them, with no hypotheses, so that the theorems hold for
-- all of them. The signatures of the consensus are the record Env of Consensus/Types: verification of
-- an aggregate, which may fail, signing, and the hash of a proposal, with the configuration.
--
-- Bounds and fuel. Loops over a list that is given are structural recursions. Two loops of the node
-- run on fuel: the one over the queue of a deleted contract, and settle_txs_until_done; both start with
-- the number of unsettled transactions, of which each round takes one away. Their result is `none` if
-- that is not enough.
--
-- Not modelled. The mempool and storage, the recursion of proofs, parse_blob of the SDK,
-- the indexers, the network, the servers' routing, the user interfaces, and the steganography service
-- in Python. Of the consensus, the event loop, the wait for the genesis block, and the queries are
-- left out; the walk to the parent that is missing, and the choice of the peer that is asked for it,
-- are steps of the relation in Consensus/Moves/Messages that may ask anyone for any proposal.
pub mod Common
pub mod Sdk
pub mod Staking
pub mod SmtToken
pub mod App
pub mod UuidTld
pub mod Hydentity
pub mod Hyllar
pub mod Amm
pub mod Wallet
pub mod Node
pub mod Consensus
pub mod Tests
