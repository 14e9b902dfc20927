-- ===== src/Lib.antt =====
-- Quetzaldex: the aggregator's clearing of an on-chain order book over pools of concentrated
-- liquidity, the client's orders, and the faucet.
--
-- The aggregator collects revealed orders, checks them against the accumulator on chain, clears an
-- epoch at one price against the pool's buckets, and commits to the fills. The parts, and where
-- they are modelled:
--   FixedPoint         aggregator/src/fixed-point.ts: mulDiv and the fee fraction
--   Buckets            aggregator/src/buckets.ts: deposits and swap steps of one bucket
--   Clearing.Types     aggregator/src/clearing.ts: the interfaces, as records
--   Clearing.Batch     selectBatch
--   Clearing.Trace     traceBucketSwap: a swap routed through the buckets, one delta for each
--   Clearing.NetSwap   simulateNet and bucketNetSwap: the imbalance of a price, swapped
--   Clearing.Price     clearingAt and the bisection of findClearingPrice
--   Clearing.OneSided  oneSidedClearingPrice
--   Clearing.Compute   computeClearing and computeClearingV2
--   Clearing.Aggregate recoverForwardedFee, deriveAggregateFlows, computePoolStateCommitment
--   Router             computeClearingMultiPair and hopPayout; Router.Registry is
--                      aggregator/src/path.ts
--   Routes             aggregator/src/clearing-cycle.ts: the registry by low words, the path of a
--                      reveal, the slots of the active pools
--   Queue              aggregator/src/queue.ts: RevealQueue, its operations as functions on a state
--   Validate           aggregator/src/validate.ts: validateReveals and repairReveals
--   Merkle             aggregator/src/merkle.ts: the settlement trees
--   Witness.Multi      aggregator/src/witness.ts: the circuit's inputs for several pools, and
--                      Witness.Single for one
--   Faucet.RateLimit   faucet/src/lib/rate-limit.ts: the table of hits and its operations
--   Faucet.Mutex       faucet/src/lib/mutex.ts: the lock, as steps of interleaved calls
--   Faucet.Drip        faucet/src/lib/drip-pipeline.ts: runDripPipeline over the two; with
--                      Faucet.Address (address.ts), Faucet.Upstream (what it asks of others) and
--                      Faucet.Handler (pages/api/drip.ts)
--   Sdk.Paths          sdk/src/orders.ts: an order's inputs, aliases and canonical path
--   Sdk.Bulk           buildBulkSlots and the decoy registry
--   Sdk.Escrow         ensurePrivateBalance and the two calls around it
--   Sdk.Place          placeOrder; Sdk.Claim: claimFill
-- A maker's client (Sdk) places orders and reveals them to the aggregator's queue, whose validation
-- sorts and replays them: Sdk.Bulk.Reveals joins the two. The faucet serves drips concurrently; they
-- share the table and the log, and run their chain calls under the lock.
-- Prelude holds the Boolean tests, lists over native numbers, maps and sets in insertion order, the
-- stable sort, signed integers, and results of code that may throw. Each child module names what it
-- proves: Clearing.Trace.Routed, Clearing.Compute.Conserve, Queue.Steps and so on. The Tests
-- modules run the definitions on concrete data.
--
-- Numbers. A `bigint` that the code keeps from being negative is a native natural, one that it
-- subtracts freely (reserves, net flows, anchors) an integer over two naturals. Division by zero is
-- an error value, and so is every `throw`; `Error` lists them. The code's `bigint` has no width, so
-- nothing wraps.
--
-- Loops. The trace loop runs on fuel, one more than the number of buckets, and never runs out
-- (Clearing.Trace.Fuel). The bisection, the one-sided search and the multi-pair loop have bounds in
-- the source (128, the candidates plus two, 8), which are their recursion. The levels of the tree of
-- hops run on the number of leaves. The search over anchor corrections runs over all combinations.
--
-- Parameters. Poseidon2 hashing and `Fr.fromString` belong to the proof system's library and are
-- arguments; so is the reading of a number from text by `BigInt`. In Validate, whose words come from
-- unchecked texts and shifted anchors, the hash may throw, and elsewhere it is a number. Nothing is
-- assumed of them, but in Validate.Search, that field elements hash to a field element.
-- Strings that are keys are strings; the key of a hop's path is the pair of its two numbers.
--
-- Calls that leave the program. What the chain, a node, a wallet, the captcha service or the
-- aggregator's server answers is an argument, as the outcome it has: a value or a thrown message, one
-- for each attempt where the code retries. Other requests that run while a drip waits are an argument
-- too, any change of what is shared. Clock readings are arguments.
--
-- Not modelled: the rest of the clearing cycle (aggregator/src/clearing-cycle.ts), the daemon,
-- relayer, server and prover calls, the printing of Prover.toml as text, the rest of the SDK, the command line and the web pages, which are input and output around these parts or call the
-- chain; and the Noir and Solidity contracts, which are other programs.
pub mod Prelude
pub mod FixedPoint
pub mod Buckets
pub mod Clearing
pub mod Router
pub mod Routes
pub mod Queue
pub mod Validate
pub mod Merkle
pub mod Faucet
pub mod Sdk
pub mod Witness
