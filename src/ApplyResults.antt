-- ===== src/ApplyResults.antt =====
-- app/router_apply_results.py: what a router reports of applying a snapshot.
mod Values
mod Diagnostics
pub mod Record
pub mod Replay
pub mod Single
pub mod Bounds
pub mod Clean
pub mod Payload
pub mod Accepted
pub use Values.*
unfoldable pub use Diagnostics.*
