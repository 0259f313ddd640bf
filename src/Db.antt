-- ===== src/Db.antt =====
-- The tables of the SQLite database that coordinate operations on the VPN server, and the actions
-- that read and write them.
mod Vocabulary
mod Rows
mod State
mod Cascade
mod Monad
mod Rules
pub use Vocabulary.*
pub use Rows.*
pub use State.*
unfoldable pub use Cascade.*
unfoldable pub use Monad.*
pub use Rules.*
