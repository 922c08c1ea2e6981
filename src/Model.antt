-- ===== src/Model.antt =====
-- The data that the services keep: internal/model, one module for each file, and the database
-- whose tables the migrations create.
pub mod Wallets
pub mod Transfer
pub mod TopUp
pub mod Ledger
pub mod Idempotency
pub mod Outbox
pub mod Users
pub mod RefreshTokens
pub mod Database
pub use Wallets.*
pub use Transfer.*
pub use TopUp.*
pub use Ledger.*
pub use Idempotency.*
pub use Outbox.*
pub use Users.*
pub use RefreshTokens.*
pub use Database.*
