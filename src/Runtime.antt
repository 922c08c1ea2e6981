-- ===== src/Runtime.antt =====
-- What the services run on: errors as values, the database with its transactions, and the
-- surroundings that the program does not implement.
pub mod Errors
pub mod Surroundings
pub mod Calls
pub mod Statement
pub mod Redis
pub mod Inversion
pub mod Forward
pub mod Reaching
pub mod Atomicity
pub use Errors.*
pub use Surroundings.*
unfoldable pub use Calls.*
unfoldable pub use Statement.*
