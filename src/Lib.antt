-- ===== src/Lib.antt =====
-- ReserveOS: a proof-of-work chain with weighted finality votes, account balances, one-time address
-- payments (OTAP) and a fee policy. This library models the core of the node in Go and proves what
-- makes its parts correct, or shows where they fall short.
--
-- The parts and the files:
--   * Base: shared names, Go's fixed-width integers, strings as lists of bytes, byte orders, and
--     `Outcome`, what a fallible call gives (a value, an error with its message, or a panic).
--   * Chain (core/chain/block.go, codec.go, tx.go, hash_parse.go, txroot.go): transactions, headers,
--     their canonical bytes, `Hash.String` and `HashFromHex`, and `TxRoot`.
--   * Crypto (core/crypto/sig/ed25519.go): `ParsePub`, `ParseSig` and `Verify` over a record
--     `Primitives` of what other packages do.
--   * Decimal (core/node/sync.go): `itoaU`.
--   * Fees (core/economics/fees/fees.go): `EstimateFee`, `SplitFees` and `TxSizeHint`.
--   * Pow (core/consensus/pow): `CompactToBig`, `BigToCompact`, `MeetsTarget`, `Work64`,
--     `Cumulative`, `Retarget` and `MineHeader`.
--   * Finality (core/consensus/finality/pos.go, core/node/finality_weighted.go and
--     `tryFinalizeHeight` of core/node/node.go): votes, the two tallies, and what they write.
--   * Node (core/node/config.go), Node/Basic (core/node/limits_validate.go and `ValidateBlockBasic`
--     of core/node/block_validate.go) and Node/Sim (`ValidateBlockStateTip`, `applyBlockToSim` of
--     core/node/block_validate_fork.go and `FilterTxsBySimState` of core/node/block_assemble.go).
--   * State (core/state/state.go and `applyBlockTxs` of core/node/state_apply.go): balances and nonces
--     in a key-value database, and the application of a block's transactions to it.
--   * Sync (core/node/sync_manager.go, with the handler of /sync/reset in node.go): the queue of blocks to fetch and those in flight, as functions on
--     the manager's state. Sync/Workers adds the workers, each of which takes a hash and marks it in two
--     calls, as a step relation in which any other call may come in between.
--   * Crypto/Edwards, Crypto/Schnorr and Crypto/Otap (core/crypto/schnorr/schnorr25519.go,
--     core/crypto/otap/otap.go, memo.go): one-time addresses, their scan, the one-time key, memos and
--     signatures, over records of the group, the hashes and the ciphers with their laws.
--   * Wallet (services/wallet-daemon/walletd/server.go, account_keys.go): the claim of an output.
--   * Storage (internal/reservestorage): the chain's records and their keys.
--   * Forks (core/node/forkchoice.go) and Forks/Headers (core/node/reorg_best.go, bestchain.go,
--     block_header_match.go, internal/reservestorage/ancestors.go, header_ancestors.go): which chain the
--     node follows. Forks/Locator (core/node/locator.go): how a peer finds a block in common.
--   * Node/Settings (core/node/config.go): `Config.Validate`.
--   * Genesis (core/chain/genesis.go, genesis_block.go): the genesis file, its rules and its block.
--   * Rewards (core/economics/pop/pop.go, internal/reservestorage/fees.go, pop.go, pop_scores.go): the fee
--     pools and the distribution of the participation pool.
--   * Snapshots (core/state/snapshot.go, snapshot_bin.go, snapshot_auto.go,
--     internal/reservestorage/state_import.go): the export of the state and its restore.
--   * Replay (core/node/block_validate_fork.go): `ValidateBlockStateOnMainParent`, its replay of the main
--     chain and the choice of a snapshot.
--   * Runs: concrete transactions, blocks and votes, on which the definitions are evaluated.
--
-- A block is checked by `ValidateLimits` and `ValidateBlockBasic`, which use Chain, Crypto and Fees,
-- and its transactions are then run over balances and nonces. The three simulations do this with
-- their own code each, and the results below relate them to each other.
--
-- Numbers. An `int64` is its two's-complement bit pattern, a natural number below 2 ^ 64, and every
-- sum, difference, product and comparison keeps Go's wrap-around. A Go map is a function with the
-- value that is read for a missing key. The order in which a map is visited, and the order in which
-- `sort.Slice` leaves equal entries, are parameters.
--
-- Fuel. `MineHeader` runs until a hash meets the target; its model has a number of attempts as fuel and
-- returns nothing where they do not suffice. `TxRoot` halves its level in each round, and the
-- number of ids is fuel enough; with less the model returns nothing. `itoaU` has 20 digits, as many as a uint64 can have. The walks over
-- headers and blocks have a number of records as fuel, and one more than the tip is high is enough.
-- `trySwitchMainChain` counts its height down. All other loops are structural recursion.
--
-- Parameters. SHA-256, Ed25519, points of edwards25519 and the Schnorr check are fields of
-- `Primitives`; so are `hash256` and `mustHex32`, which the code calls and declares nowhere. The type
-- `OTAPClaim` and the configuration's field `Reward` are read and not declared; they have the fields
-- that the code reads. The database (goleveldb) is a record `Kv` of reads and writes with one law, that
-- a read after a write gives the written value for its key and what was there for any other.
-- Iteration over the keys of a prefix and deletion are a record `Scan`: the entries under a prefix are
-- what a read of each key gives, and a deleted key is missing.
--
-- The sums, points and scalars of filippo.io/edwards25519, SHA-512, HKDF, ChaCha20-Poly1305 and base64
-- are the records `Edwards` and `Ciphers`, and encoding/json is the record `Json`.
--
-- Not modelled: most of what iterates over the keys of the database (candidates, checkpoints, the lists
-- of peers and blocks), the rebuild of the state from a snapshot, the mempool, peers,
-- sockets, HTTP, files and the daemons' loops.
pub mod Base
pub mod Chain
pub mod Crypto
pub mod Decimal
pub mod Fees
pub mod Finality
pub mod Node
pub mod Pow
pub mod State
pub mod Sync
pub mod Wallet
pub mod Storage
pub mod Forks
pub mod Genesis
pub mod Rewards
pub mod Snapshots
pub mod Replay
mod Runs
