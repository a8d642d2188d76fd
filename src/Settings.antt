-- ===== src/Settings.antt =====
-- `Settings` of wiregui/config.py: the entries that the modelled code reads.
use wiregui.Base.{ℕ, Bool, Option, Text}
use wiregui.Base.Int.{ℤ}

pub record Settings : Type 0 where
  pub secret_key : Text
  pub wg_enabled : Bool
  pub wg_interface : Text
  pub wg_endpoint_host : Text
  pub wg_endpoint_port : ℕ
  pub wg_ipv4_network : Text
  pub wg_ipv6_network : Text
  pub wg_dns : Text
  pub wg_mtu : ℤ
  pub wg_persistent_keepalive : ℤ
  pub wg_allowed_ips : Text
  pub admin_email : Text
  pub admin_password : Option Text
  pub external_url : Text
