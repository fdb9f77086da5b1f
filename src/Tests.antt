-- ===== src/Tests.antt =====
-- Concrete runs, and the theorems at concrete inputs.
mod Memory
mod Namespaces
mod Levels
mod Tasks
mod Chain
mod Pool
mod Reorgs
mod Scans
mod Store
mod Ldb
mod Txmgr
mod Records
mod Wallets
mod Payments
mod Eligible
