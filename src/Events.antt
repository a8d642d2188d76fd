-- ===== src/Events.antt =====
-- wiregui/services/events.py: what a change of the database does to WireGuard and the firewall.
mod Handlers
pub mod Isolation
unfoldable pub use Handlers.*
