-- ===== src/Allocation.antt =====
-- wiregui/utils/network.py: the allocation of tunnel addresses, and the list of relay subnets.
mod Defs
pub mod Search
pub mod Pigeonhole
pub mod Free
pub mod Printed
unfoldable pub use Defs.*
