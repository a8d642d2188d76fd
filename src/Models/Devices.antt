-- ===== src/Models/Devices.antt =====
-- wiregui/models/device.py
use wiregui.Base.{ℕ, Bool, Option, List, Text}
use wiregui.Base.Int.{ℤ}

pub record Device : Type 0 where
  pub id : Text
  pub name : Text
  pub description : Option Text
  pub public_key : Text
  pub preshared_key : Option Text
  pub use_default_allowed_ips : Bool
  pub use_default_dns : Bool
  pub use_default_endpoint : Bool
  pub use_default_mtu : Bool
  pub use_default_persistent_keepalive : Bool
  pub endpoint : Option Text
  pub mtu : Option ℤ
  pub persistent_keepalive : Option ℤ
  pub allowed_ips : List Text
  pub dns : List Text
  pub ipv4 : Option Text
  pub ipv6 : Option Text
  pub allowed_subnets : List Text
  pub remote_ip : Option Text
  pub rx_bytes : Option ℕ
  pub tx_bytes : Option ℕ
  pub latest_handshake : Option ℕ
  pub user_id : Text
  pub inserted_at : ℕ
  pub updated_at : ℕ
