-- ===== src/Accounting.antt =====
-- What the posting rules of app/domain/rules/ do to the accounts, one rule at a time and together.
pub mod Soundness
pub mod Sale
pub mod Cycles
