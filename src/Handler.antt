-- ===== src/Handler.antt =====
-- internal/handler: HTTP requests into calls of the services, and their results into replies.
pub mod Replies
pub mod Numbers
pub mod Wallet
pub mod RateLimit
pub mod Middleware
pub mod Auth
pub mod Status
