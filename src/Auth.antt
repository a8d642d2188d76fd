-- ===== src/Auth.antt =====
-- wiregui/auth/ and the pages that sign a user in: bearer tokens, passwords with the second factor,
-- magic links, and single sign-on.
mod Libraries
mod Tokens
mod Login
mod Federated
mod Saml
pub mod Machine
mod Providers
pub mod Current
pub mod Callbacks
pub mod Gate
pub mod Vouched
pub mod Settled
pub mod Factors
mod Seed
pub mod Seeded
pub use Libraries.*
unfoldable pub use Tokens.*
unfoldable pub use Login.*
unfoldable pub use Federated.*
unfoldable pub use Saml.*
unfoldable pub use Providers.*
unfoldable pub use Seed.*
