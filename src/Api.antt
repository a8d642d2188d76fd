-- ===== src/Api.antt =====
-- wiregui/api/v0/ and wiregui/schemas/: the REST API.
mod Requests
mod Users
mod DeviceRoutes
mod RuleRoutes
mod Calls
pub mod Rows
pub mod Access
pub use Requests.*
unfoldable pub use Users.*
unfoldable pub use DeviceRoutes.*
unfoldable pub use RuleRoutes.*
unfoldable pub use Calls.*
