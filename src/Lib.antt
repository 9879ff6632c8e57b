-- ===== src/Lib.antt =====
-- The state transition of beacon-kit, a consensus client that runs beside an execution client.
--
-- What is modelled, and where:
--   Prelude       Boolean tests, lists and unsigned 64-bit arithmetic over the native numbers.
--   Exec          Go functions that return an error: a Result, and actions on a state that may fail.
--                 An action that fails keeps what it wrote before, as a Go method does.
--   Chain         mod/primitives/pkg/chain: the constants of the chain, slots, epochs and forks.
--   Types         mod/consensus-types/pkg/types, mod/engine-primitives and the data of
--                 mod/primitives/pkg/transition; Types.Validator has validator.go and
--                 withdrawal_credentials.go.
--   Collections   the interface of the cosmossdk collections that the store is built on, with the
--                 laws its documentation states; Collections.Assoc fills it with association lists.
--   BeaconDb      mod/storage/pkg/beacondb: KVStore with its getters and setters; BeaconDb.Registry has
--                 registry.go.
--   StateDb       mod/state-transition/pkg/core/state/statedb.go over that store: balances,
--                 slashings, HashTreeRoot; StateDb.Sweep has ExpectedWithdrawals.
--   Processor     mod/state-transition/pkg/core. Processor.Block has Transition and ProcessBlock,
--                 Processor.Slots ProcessSlots and processSlot, Processor.Epoch processEpoch and its
--                 parts, Processor.Header, Payload, Randao, Deposits and Withdrawals the steps of a
--                 block, Processor.Genesis the state before the first block.
--   Engine        mod/execution/pkg/engine/engine.go: what becomes of the answers of the execution
--                 client, which is a parameter.
--   ExecutionClient mod/execution/pkg/client: that client, over the JSON-RPC calls.
--   PayloadCache  mod/payload/pkg/cache/payload_id.go.
--   PayloadBuilder mod/payload/pkg/builder, over the cache and the engine, with the payload attributes of
--                 mod/engine-primitives.
--   DepositStore  mod/storage/pkg/deposit/store.go.
--   RangeDb       mod/storage/pkg/filedb/range_db.go, over files that are a parameter.
--   Pruner        mod/storage/pkg/pruner, with the prune ranges of mod/da/pkg/store/pruner.go and
--                 mod/execution/pkg/deposit/pruner.go, over RangeDb and DepositStore.
--   Merkle        mod/primitives/pkg/merkle and its zero hashes, over the SHA-256 libraries: the builders;
--                 Merkle.Branches has the branches and their check, Merkle.Insert the insertion,
--                 Merkle.Sized the builders that take a number of leaves.
--   Math          mod/primitives/pkg/math/u64.go: powers of two and logarithms.
--   Hex           mod/primitives/pkg/hex: the text of a uint64.
--   DataAvailability mod/da/pkg: the checks of blob sidecars and the availability store;
--                 DataAvailability.Factory has the factory that builds sidecars.
--   Validator     mod/beacon/validator: what a block is filled with; Validator.Proposal has
--                 RequestBlockForProposal and computeStateRoot.
--   Blockchain    mod/beacon/blockchain/receive.go and process.go, JoinFatal and IsFatal of mod/errors/mod.go,
--                 and the handler of proposals of mod/runtime/pkg/runtime/middleware/validator.go;
--                 Blockchain.Building has payload.go and execution_engine.go of that service.
--   Example       a small chain on which the definitions are run and the theorems applied.
--
-- How the parts interact: Transition processes the slots up to the block's, and an epoch where
-- one ends, then the block; each step is an action on the store (Exec (Kv c)), in the order of
-- the source. Transition saves the store only if all of them succeed. The blockchain service
-- runs Transition on a copy of the state for a proposal and on the state itself for a block that
-- is finalized, with the blob verifier and the availability store; the availability store stands
-- on the range database, and the inclusion proofs of sidecars on Merkle. The validator service
-- runs Transition without its checks on a block of its own, joins the payload builder, the
-- deposit store and the sidecar factory, and may read the block in one goroutine while another
-- changes it. The payload builder joins the state store, the payload id cache and the engine.
-- The modules below a component (Checks, Effects, Cursors, Advance and so on) hold its proofs
-- and are named for what they prove.
--
-- Modelling decisions:
--   - A uint64 is a native number; where the source adds, subtracts or multiplies, the wrap-around is
--     written out (add64, sub64, mul64).
--   - Byte arrays are lists of numbers. Hashes, SSZ roots, the signer, the execution engine, and the
--     order in which the two goroutines of processExecutionPayload end, are fields of StateProcessor;
--     the definitions take it as a parameter, and no law is assumed of them.
--   - Loops are structural: over a list, or over the number of rounds left, so no fuel is needed; a
--     uint64 has at most 16 hexadecimal digits, which its text is given, and 64 bits, which
--     bits.Len64 is given.
--   - A division by zero and an index out of range are the error `panic`. Four divisors, the slots
--     of an epoch, the lengths of the two vectors of epochs and the increment of effective
--     balances, are never zero in a ChainSpec of the model: it comes with a proof of that, and a
--     specification of the source where one is zero, on which the source panics, is outside the
--     model.
--   - An error of the database itself, other than a missing entry, does not occur in the model.
--
-- Not modelled: processSlashings; the start of the execution client, its authentication and the
-- encoding of its calls; the file database below the range database; the dispatch of the
-- runtime; SSZ and JSON codecs; logging and metrics.
mod Prelude
pub mod Exec
pub mod Chain
pub mod Types
pub mod Collections
pub mod BeaconDb
pub mod StateDb
pub mod Processor
pub mod Engine
pub mod ExecutionClient
pub mod PayloadCache
pub mod PayloadBuilder
pub mod DepositStore
pub mod RangeDb
pub mod Pruner
pub mod Merkle
pub mod Math
pub mod Hex
pub mod DataAvailability
pub mod Validator
pub mod Blockchain
mod Example
mod Examples
