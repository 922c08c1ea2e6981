-- ===== src/Service.antt =====
-- internal/service: the business rules, composed of the repositories' methods.
pub mod Amount
pub mod Reference
pub mod Reservation
pub mod Wallet
pub mod Publisher
pub mod Auth
pub mod Books
pub mod History
pub mod Sessions
