-- ===== src/Wireguard.antt =====
-- wiregui/services/wireguard.py
mod Interface
mod Dump
mod Routing
pub mod Converge
pub mod Printed
unfoldable pub use Interface.*
unfoldable pub use Dump.*
unfoldable pub use Routing.*
