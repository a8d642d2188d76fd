-- ===== src/Tasks.antt =====
-- wiregui/tasks/ and wiregui/services/notifications.py: what runs in the background.
pub mod Notifications
mod Sessions
mod Stats
mod Refresh
mod Connectivity
pub mod Expiry
pub mod Refreshed
unfoldable pub use Notifications.*
unfoldable pub use Sessions.*
unfoldable pub use Stats.*
unfoldable pub use Refresh.*
unfoldable pub use Connectivity.*
