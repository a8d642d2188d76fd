-- ===== src/Net.antt =====
-- Python's `ipaddress`, as far as the program uses it: networks in CIDR notation, and the text of
-- addresses.
mod Digits
pub mod Decimals
mod V4
mod V6
mod Cidr
mod Tests
unfoldable pub use Digits.*
unfoldable pub use V4.*
unfoldable pub use V6.*
unfoldable pub use Cidr.*
