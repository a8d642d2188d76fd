-- ===== src/Api/Requests.antt =====
-- The bodies of the requests, wiregui/schemas/user.py, device.py, rule.py and configuration.py. In
-- an update a field that is not sent is `none`, and a null that is sent is `some none`.
use wiregui.Base.{ℕ, Bool, true, false, Option, none, some, List, [], Text}
use wiregui.Base.Int.{ℤ}

pub record UserCreate : Type 0 where
  pub email : Text
  pub password : Text
  pub role : Text

pub record UserUpdate : Type 0 where
  pub email : Option (Option Text)
  pub password : Option (Option Text)
  pub role : Option (Option Text)
  pub disabled_at : Option (Option ℕ)

pub record DeviceCreate : Type 0 where
  pub name : Text
  pub description : Option Text
  pub user_id : Option Text

pub record DeviceUpdate : Type 0 where
  pub name : Option (Option Text)
  pub description : Option (Option Text)
  pub use_default_allowed_ips : Option (Option Bool)
  pub use_default_dns : Option (Option Bool)
  pub use_default_endpoint : Option (Option Bool)
  pub use_default_mtu : Option (Option Bool)
  pub use_default_persistent_keepalive : Option (Option Bool)
  pub endpoint : Option (Option Text)
  pub mtu : Option (Option ℤ)
  pub persistent_keepalive : Option (Option ℤ)
  pub allowed_ips : Option (Option (List Text))
  pub dns : Option (Option (List Text))

pub record RuleCreate : Type 0 where
  pub action : Text
  pub destination : Text
  pub port_type : Option Text
  pub port_range : Option Text
  pub priority : ℤ
  pub user_id : Option Text

pub record RuleUpdate : Type 0 where
  pub action : Option (Option Text)
  pub destination : Option (Option Text)
  pub port_type : Option (Option Text)
  pub port_range : Option (Option Text)
  pub priority : Option (Option ℤ)
  pub user_id : Option (Option Text)

pub record ConfigurationUpdate : Type 0 where
  pub allow_unprivileged_device_management : Option (Option Bool)
  pub allow_unprivileged_device_configuration : Option (Option Bool)
  pub local_auth_enabled : Option (Option Bool)
  pub disable_vpn_on_oidc_error : Option (Option Bool)
  pub default_client_persistent_keepalive : Option (Option ℤ)
  pub default_client_mtu : Option (Option ℤ)
  pub default_client_endpoint : Option (Option Text)
  pub default_client_dns : Option (Option (List Text))
  pub default_client_allowed_ips : Option (Option (List Text))
  pub vpn_session_duration : Option (Option ℤ)
  pub logo_url : Option (Option Text)
  pub logo_type : Option (Option Text)

-- What is drawn for a new row: its id, the time, and a salt or the keys and the addresses' draws.
pub record Draws : Type 0 where
  pub id : Text
  pub now : ℕ
  pub salt : Text
  pub public_key : Text
  pub preshared_key : Text
  pub draw_v4 : ℕ → ℕ
  pub draw_v6 : ℕ → ℕ

-- `setattr` for a field that was sent.
abbrev pub patched {ℓ} : {A : Type ℓ} → Option A → A → A
patched none old = old
patched (some new) old = new

-- A null that is sent for a column that may not be null.
abbrev pub is_null {ℓ} : {A : Type ℓ} → Option (Option A) → Bool
is_null none = false
is_null (some none) = true
is_null (some (some new)) = false

-- `setattr` for such a column, where the null is refused by the commit.
abbrev pub patched_value {ℓ} : {A : Type ℓ} → Option (Option A) → A → A
patched_value none old = old
patched_value (some none) old = old
patched_value (some (some new)) old = new

-- `setattr` for a column of JSON, which takes the null. The rows hold it as the empty list, which
-- the configuration of a client treats alike.
abbrev pub patched_list {ℓ} : {A : Type ℓ} → Option (Option (List A)) → List A → List A
patched_list none old = old
patched_list (some none) old = []
patched_list (some (some new)) old = new
