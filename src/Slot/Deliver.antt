-- ===== src/Slot/Deliver.antt =====
-- src/engine.rs: the broadcasts of a slot's calls: expiry, dispatch and the results of the tasks.
mod Calls
mod Expire
mod Dispatch
mod Collect
pub mod Timing
pub mod Due
pub mod Rounds
pub mod Sends
pub mod Timely
pub mod Keeps
pub mod Ledger
pub mod Recorded
pub mod Signed
pub mod Budget
unfoldable pub use Calls.*
unfoldable pub use Expire.*
unfoldable pub use Dispatch.*
unfoldable pub use Collect.*
