-- ===== src/DevicePages.antt =====
-- wiregui/pages/devices.py and wiregui/pages/admin/devices.py: what their handlers do.
mod Form
unfoldable pub use Form.*
mod Handlers
unfoldable pub use Handlers.*
mod Visits
unfoldable pub use Visits.*
pub mod Addresses
pub mod Effects
pub mod Created
pub mod Sound
pub mod Runs
pub mod Numbers
pub mod Reopened
