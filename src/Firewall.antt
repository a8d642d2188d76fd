-- ===== src/Firewall.antt =====
-- wiregui/services/firewall.py: the batches that the program builds, and what it does when one
-- fails.
mod Names
pub mod Sorted
mod Batch
mod Ops
pub mod Runs
pub mod Rebuild
pub mod Jumps
pub mod Reconciled
pub mod Stable
pub mod Ordered
pub mod Policies
pub mod Started
unfoldable pub use Names.*
unfoldable pub use Sorted.*
unfoldable pub use Batch.*
unfoldable pub use Ops.*
