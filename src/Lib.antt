-- ===== src/Lib.antt =====
-- A verification library for godwoken-web3, the Ethereum JSON-RPC server in front of a Godwoken node:
-- the code of packages/api-server/src that gives the server's answers their meaning.
--
-- The parts and how they interact. A request passes the rate limits (packages/api-server/src/rate-limit.ts
-- and cache/guard.ts beside it), then the middleware and the validators of its parameters
-- (methods/validator.ts). A method behind them filters logs (db/helpers.ts), converts a signed Ethereum
-- transaction to a Godwoken transaction (convert-tx.ts), or reads the receipts of the node
-- (filter-web3-tx.ts, parse-tx.ts). The conversion uses the validators again, the gas rules (util.ts),
-- the gasless payloads (gasless/), the addresses (base/address.ts) and the polyjuice arguments, which
-- are written with the integer classes (base/types/uint.ts). The rate limits, the filters that are
-- installed (cache/index.ts) and the mapping of transaction hashes (cache/tx-hash.ts) keep their state
-- in the store (cache/store.ts), which sends commands to Redis. The methods on filters
-- (methods/modules/eth.ts) use a filter manager and the database, whose rows are turned into the records
-- of the answers (db/types.ts). Beside the requests, the main process polls the database for new blocks
-- (block-emitter.ts) and sends them to the other processes, where the connections with subscriptions
-- (ws/methods.ts) pass them on to their clients.
--
-- The files, and the code that each models:
--   Common        tests on numbers, lists, results and texts that all files share
--   Hex           packages/api-server/src/base/types/uint.ts and util.ts: hexadecimal text, with
--                 BigInt and toString
--   Buffer        Node's Buffer: hexadecimal text, reads and writes with the lowest byte first
--   Uint          packages/api-server/src/base/types/uint.ts: Uint32, Uint64, Uint128 and Uint256
--   Address       packages/api-server/src/base/address.ts: EthRegistryAddress
--   Polyjuice     packages/api-server/src/convert-tx.ts: buildPolyjuiceArgs and the arguments of
--                 polyTxToGwTx; packages/api-server/src/parse-tx.ts: decodePolyjuiceArgs
--   PolyjuiceLog  packages/api-server/src/filter-web3-tx.ts: the parsers of logs and bumpHash
--   LogFilter     packages/api-server/src/db/helpers.ts: the log filters and the clauses of log
--                 queries
--   Gas           packages/api-server/src/util.ts: calcIntrinsicGas and calcFee
--   Json          the values of a request's parameters
--   Validator     packages/api-server/src/methods/validator.ts
--   Convert       packages/api-server/src/convert-tx.ts, base/address.ts, gasless/payload.ts and
--                 gasless/utils.ts, with the checks of funds of methods/validator.ts
--   Cache         packages/api-server/src/cache/store.ts and cache/tx-hash.ts
--   RateLimit     packages/api-server/src/cache/guard.ts and rate-limit.ts
--   FilterManager packages/api-server/src/cache/index.ts
--   Api           packages/api-server/src/db/types.ts and base/types/api.ts: the records of the answers
--   Eth           packages/api-server/src/methods/modules/eth.ts: block parameters, requests of logs,
--                 the methods on filters, blocks and accounts, the keys of storage and of the caches,
--                 and the logs of a run (Eth/GwLogs)
--   Normalizer    packages/api-server/src/methods/normalizer.ts: the gas of calls and estimations
--   DataCache     packages/api-server/src/cache/data.ts: RedisDataCache.get
--   Worker        packages/api-server/src/base/worker.ts
--   Emitter       packages/api-server/src/block-emitter.ts
--   Subscriptions packages/api-server/src/ws/methods.ts: the subscriptions of a connection
--   GasPrice      packages/api-server/src/base/gas-price.ts, and the answers of price-oracle.ts
--   ExitCode      packages/api-server/src/methods/exit-code.ts: the tables and matchExitCode
--   GwError       packages/api-server/src/methods/gw-error.ts: the error of a failed run
--   Tests         runs of the code and of the theorems at concrete inputs
-- A function keeps its name, in snake case. A state is passed on explicitly: an operation of the store
-- takes a store and returns the one behind the call; an operation that may throw behind a change of its
-- state returns the state beside the Result. What the runtime may do in any order (timers, promises,
-- intervals, commands of several callers) is a step relation (Worker, DataCache) or a list of events
-- (Emitter, Subscriptions). A call that may throw returns a Result, without the
-- text of the message; a validator returns a Verdict.
--
-- Bounds and fuel. Numbers are natural numbers, and the ranges of the integer classes, of the writes to
-- a buffer and of Redis's counters are written out. `+v` is read as a double: exact below 2 ^ 53 and
-- even from there on. The only fuel is that of printing a number in base 16, which is the number itself,
-- and since each round divides by 16 it is enough. All other loops are recursions on their list.
--
-- Parameters. RLP, keccak256, secp256k1, the ABI coder, the script hash of lumos, the answers of the
-- Godwoken node and of the price oracle are fields of a record (Convert) without laws. Redis is a
-- record with the documented laws of SET, GET, INCR and UNLINK between two expiries (Cache/Laws). Of
-- JSON the filter manager needs that it gives the kept filter back. The query builder and the
-- database are a record with the laws of the clauses on topics (LogFilter). The queries of the emitter
-- and of the methods are fields of a record; what the theorems need of them is a hypothesis: the emitter
-- is shown a chain of blocks up to the tip that a poll reads, without more logs than a query returns
-- (Emitter/Announce), a filter the rows behind an id (Eth/Polling), and the filter manager keeps the laws
-- of Eth/Filters, which the class of FilterManager does (Eth/Manager).
--
-- Not modelled. Calls that overlap in time: the calls of a request and of a poll stand one behind the
-- other, except in DataCache. The passing of time and expiry. The texts of errors, logging, tracing and
-- metrics. The methods on transactions and receipts and those of the other modules, the transactions of
-- the pending block and the poll of the price oracle. The indexer, which is written in Rust, and
-- generated code.
mod Common
pub mod Hex
pub mod Buffer
pub mod Uint
pub mod Address
pub mod Polyjuice
pub mod PolyjuiceLog
pub mod LogFilter
pub mod Json
pub mod Gas
mod Tests
pub mod Validator
pub mod Cache
pub mod RateLimit
pub mod FilterManager
pub mod GasPrice
pub mod ExitCode
pub mod GwError
pub mod Convert
pub mod Api
pub mod Normalizer
pub mod Worker
pub mod Emitter
pub mod DataCache
pub mod Eth
pub mod Subscriptions
