-- ===== src/Api.antt =====
-- api: what the RPC server checks of its requests and writes in its answers.
pub mod Amounts
