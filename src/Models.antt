-- ===== src/Models.antt =====
-- The tables of wiregui/models/. Timestamps are seconds of a clock, ids are texts in the form of
-- `str(uuid)`, and the relationship attributes are left out: the rows are joined by `user_id`.
mod Devices
mod Rules
mod Users
mod Configurations
pub use Devices.*
pub use Rules.*
pub use Users.*
pub use Configurations.*
