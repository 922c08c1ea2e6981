-- ===== src/Tests.antt =====
-- Runs of the model on small inputs, and the theorems at inputs that meet their hypotheses.
pub mod Fixture
mod RedisStore
mod Transfers
mod TopUps
mod Amounts
mod Requests
mod Failures
mod Publishing
mod Accounts
pub mod Histories
mod Web
mod Progress
