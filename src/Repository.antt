-- ===== src/Repository.antt =====
-- internal/repository: each SQL text as a statement over the tables, with the constraints of
-- migrations/, and each method as a call.
pub mod Column
pub mod Wallet
pub mod Ledger
pub mod TopUp
pub mod TopUpStatements
pub mod Idempotency
pub mod Outbox
pub mod Pending
pub mod Users
pub mod RefreshTokens
pub mod History
