-- ===== src/Lib.antt =====
-- The MASS wallet: its key/value database, its transaction stores, the choice of a transaction's
-- inputs, fee and change, its background tasks, and the text of amounts.
--
-- The wallet keeps everything in one key/value store. `masswallet/db` has the interface (buckets,
-- transactions, prefixes), `masswallet/db/ldb` implements it over goleveldb, and `masswallet/txmgr`
-- lays out the wallet's outputs, spendings and blocks as keys and values in buckets. A store calls
-- a bucket only through the interface, and the interface calls goleveldb. Above the stores,
-- `masswallet` chooses which credits pay an amount: the selector of utxo_selector.go takes the
-- credits of a scan, optOutputs of tx.go selects among what it keeps, and
-- autoConstructTxInAndChangeTxOut of common.go looks until the fee covers the size. `api` reads and
-- writes amounts as decimal text.
--
-- The files, and the code that each is about:
--   Prelude: lists, bytes, big-endian numbers and tests over the native numbers; Prelude.Exec has
--     the errors of the code as values and the monad of code with state and an error; Prelude.Keeps
--     has the loops over it and the rules by which an action keeps an invariant or leads to one.
--   Db: masswallet/db/db.go. `bytes_prefix` is BytesPrefix; `Bucket` is the interface that the
--     stores call, and `IsBucket` what they may rely on; Db.Drivers is the registry of drivers.
--   Ldb.Path: the names, paths and flat keys of masswallet/db/ldb/leveldb.go (joinBucketPath,
--     innerKey, subBucket, isValidBucketName).
--   Ldb.Batch: `batch`, the overlay of a write transaction (Get, Put, Delete, GetNetPutsByPrefix).
--   Ldb.Transaction: `transaction` (TopLevelBucket, FetchBucket, CreateTopLevelBucket, Commit,
--     Rollback), the creation and finding of sub buckets, and View and Update of db.go.
--   Ldb.Names: BucketNames of a transaction and of a bucket.
--   Ldb.Bucket: `levelBucket` (Get, Put, Delete, Clear, GetByPrefix).
--   Txmgr: the records of masswallet/txmgr/type.go.
--   Txmgr.Unspent, Txmgr.Credits, Txmgr.Debits: the functions of masswallet/txmgr/utxostore_db.go
--     on the buckets of unspent and unmined outputs, credits and debits.
--   Txmgr.Games, Txmgr.Addresses: the histories of stakings and bindings, the addresses and the
--     balances of the same file.
--   Txmgr.TxRecords, Txmgr.Blocks: masswallet/txmgr/txstore_db.go.
--   Txmgr.Sync: masswallet/txmgr/syncstore_db.go.
--   Txmgr.Status: the status of a wallet in masswallet/txmgr/syncstore.go and common_db.go.
--   Txmgr.Balances: the balances and addresses of masswallet/txmgr/utxostore.go.
--   Txmgr.Store: the buckets, TxRecord and what the transaction store and the UTXO store call
--     outside. Txmgr.Store.Utxo: the writing operations of masswallet/txmgr/utxostore.go
--     (AddCredits, addUnminedCredits, removeUnminedGameHistory, the unmined inputs).
--     Txmgr.Store.Scan: its scans (ScriptAddressUnspents, ScriptAddressBalance, WalletBalance).
--     Txmgr.Store.Histories: its queries of stakings and bindings (GetStakingHistoryDetail and so on).
--     masswallet/txmgr/txstore.go is in Txmgr.Store.Spends (updateMinedBalance), Unmined
--     (insertMemPoolTx, removeConflict, removeDoubleSpends), Txs (AddRelevantTx, insertMinedTx and
--     the import), Undoing and Rollback (Rollback), Lookup (ExistsTx, ExistsUtxo) and Wallets
--     (RemoveRelevantTx, with removeRelevantCredit of the UTXO store). Kept, MemPool, Once, Totals,
--     Undone, Reorg, Flags and BlockCheck hold the proofs. Txmgr.Store.Levels joins the stores to
--     the database: the buckets of one LevelDB transaction are what the stores rely on.
--   Wallet.Money: massutil.Amount, as the wallet calls it.
--   Wallet.Selector: masswallet/utxo_selector.go; Cells and Sift are about its heap, TopK and Choice
--     about what `submit` keeps.
--   Wallet.OptOutputs: optOutputs of masswallet/tx.go.
--   Wallet.Eligible: findEligibleUtxos and getUtxosExcludeBindingAndStaking of masswallet/tx.go.
--   Wallet.Construct: autoConstructTxInAndChangeTxOut of masswallet/common.go. Wallet.Eligible.Paid
--     is about its run over findEligibleUtxos.
--   Wallet.Fees: maybeSubtractFeeFromAmounts of masswallet/common.go, and the fee and the change of
--     CreateRawTransaction of masswallet/wallet.go.
--   Wallet.Tasks: masswallet/task.go, and the worker of masswallet/ntfnshandler.go.
--   Api.Amounts: AmountToString and StringToAmount of api/util.go; masswallet/common.go has a copy
--     of the first.
--   Tests: a store in memory, and runs of the code at which the theorems apply.
--
-- How the code is modelled. A Go string and a []byte are a list of numbers, with bounds where a
-- proof needs that they are bytes; nil and an empty slice are told apart by an Option where the
-- code tells them apart. State is passed: a bucket's method takes the transaction and returns
-- the next one. Errors are values of `Error`. A map is an association list whose order no
-- function depends on, since GetNetPutsByPrefix returns a Go map. Fixed-width integers are
-- written with their wrap-around; the sequence number of a batch is a uint32 and wraps, so that
-- a transaction is ready only for as many writes as are left before that. Hashes are 32 bytes
-- and wallet ids 42.
--
-- Loops are recursion on the list or the number that the code counts by. The digits of a number
-- are taken with as much fuel as the number plus one, which is more than it has digits; the loop
-- over hashes of an unmined input has the length of its bytes as fuel, and takes 32 of them a
-- round; the loop of resetSyncedTo runs once for each height that it takes away. `adjust` of the
-- selector has `k + 1` rounds, since its index at least doubles in each. The inner loop of
-- autoConstructTxInAndChangeTxOut has two rounds and the outer one two more than the largest
-- amount, since the offered fee rises in each; a run that has not ended then is `none`.
-- removeConflict calls itself on the transactions that spend an output: its fuel bounds the
-- depth of such a chain, and where it is used up the model fails, with an error that no theorem
-- excludes. Rollback takes one
-- round for each height down to its argument, which its caller disconnectBlock keeps above 0.
--
-- Parameters: goleveldb is `Leveldb` with `IsLeveldb`, which states that an iterator visits the
-- keys of its range with the values that Get returns, and that Write applies the operations of a
-- batch in their order; what a Write that fails leaves on the disk is not assumed.
-- BytesPrefix of its package util, which db.go has a copy of, is taken to be that copy. The amounts of massutil are `Amounts`, with the hypothesis that an
-- amount is a uint64 and is made again from its number. wire.MsgTx is `MsgTxs`, with the
-- hypothesis that it is read back from its bytes, and massutil.IsValidAddressClass is a
-- function. The arithmetic of amounts is `Money` with `IsMoney`: it succeeds as far as the
-- largest amount, and fails above it. safetype.Uint128 is `Uint128` with `IsUint128`, and the
-- constants of MASS are `Limits` with `IsLimits`. `Calls` has the methods that the loops of
-- autoConstructTxInAndChangeTxOut call: findEligibleUtxos, which Wallet.Eligible.Paid fills in, and
-- amountToTxOut, estimateSignedSize and addTxIn, of which nothing is assumed. What sort.Slice makes of the credits is the argument of
-- `opt_outputs`, whose order no theorem relies on; `Sources` has the scan, the key store's
-- addresses and the pool, as findEligibleUtxos calls them. `Outside` has what the stores call:
-- wire.MsgTx, the parser of scripts, the chain and the accounts of the key store. `IsStore`
-- states that the buckets of one transaction do not touch each other, and that each write uses up
-- one of those that the transaction is ready for. A `Visit` is what an iterator visits.
-- Logging is left out, and so are locks, since the stores' callers hold one transaction at a
-- time. The worker of the background tasks is a step relation from the moment that its channel is
-- made, in which calls come while it still goes through the statuses that it starts with.
--
-- Not modelled: the iterators and deleteBucket of leveldb.go, the opening of files, the RocksDB
-- backend, and the rest of the wallet: the creation of the stores, the wallet manager's calls of
-- the stores and the network, the notifications, the key store, the services of the RPC server
-- and the command line.
pub mod Prelude
pub mod Db
pub mod Ldb
pub mod Api
pub mod Txmgr
pub mod Wallet
pub mod Tests
