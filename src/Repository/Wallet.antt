-- ===== src/Repository/Wallet.antt =====
-- internal/repository/wallet.go: the methods of `WalletRepository`.
pub mod Balances
pub mod Locked
pub mod Transfers
pub mod Statements
pub mod Made
pub mod Funding
