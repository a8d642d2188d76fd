-- ===== src/Ordering.antt =====
-- wiregui/utils/ordering.py, and how wiregui/pages/admin/rules.py orders and edits the rules.
mod Priorities
mod Editor
pub mod Persisted
pub mod Appended
pub mod Switched
unfoldable pub use Priorities.*
unfoldable pub use Editor.*
