-- ===== src/Reconcile.antt =====
-- wiregui/tasks/reconcile.py: what the program does to WireGuard and the firewall when it starts.
mod Startup
pub mod Missing
pub mod Converge
unfoldable pub use Startup.*
