-- ===== src/Wallet.antt =====
-- masswallet: what the wallet manager computes from the stores' credits and from amounts.
pub mod Money
pub mod Selector
pub mod OptOutputs
pub mod Fees
pub mod Construct
pub mod Eligible
pub mod Tasks
