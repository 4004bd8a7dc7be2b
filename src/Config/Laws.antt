-- ===== src/Config/Laws.antt =====
-- What a validated configuration guarantees to the parts that are built from it.
pub mod Accounts
pub mod Checks
pub mod Filled
