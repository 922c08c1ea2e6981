-- ===== src/Service/Wallet.antt =====
-- internal/service/wallet.go: the methods of `WalletService`.
pub mod Event
pub mod Quiet
pub mod Steps
pub mod Lookup
pub mod Atomicity
pub mod Existing
pub mod Transfer
pub mod TopUp
pub mod Requests
