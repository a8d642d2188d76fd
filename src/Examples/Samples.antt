-- ===== src/Examples/Samples.antt =====
-- The data of the examples: settings, two users with their devices and rules, and the tools.
use wiregui.Base.{ℕ, true, false, Option, none, some, List, [], ◌∷◌, Text, codes}
use wiregui.Base.Int.{pos}
use wiregui.Settings.{Settings}
use wiregui.Models.{User, Device, Rule, ApiToken, MfaMethod, Configuration, Provider}
use wiregui.Database.{Database}

abbrev pub sample_settings : Settings
sample_settings = record {
  secret_key = codes "secret";
  wg_enabled = true;
  wg_interface = codes "wg0";
  wg_endpoint_host = codes "vpn.example.org";
  wg_endpoint_port = 51820;
  wg_ipv4_network = codes "10.3.2.0/24";
  wg_ipv6_network = codes "fd00::3:2:0/120";
  wg_dns = codes "1.1.1.1";
  wg_mtu = pos 1280;
  wg_persistent_keepalive = pos 25;
  wg_allowed_ips = codes "0.0.0.0/0";
  admin_email = codes "admin@example.org";
  admin_password = none;
  external_url = codes "https://vpn.example.org";
}

abbrev pub user_with : Text → Text → Text → Option ℕ → User
user_with id email role signed_in = record {
  id = id;
  email = email;
  password_hash = some (codes "hash:pw");
  role = role;
  last_signed_in_at = signed_in;
  last_signed_in_method = none;
  sign_in_token_hash = none;
  sign_in_token_created_at = none;
  disabled_at = none;
  theme_preference = codes "auto";
  inserted_at = 1;
  updated_at = 1;
}

abbrev pub ann : User
ann = user_with (codes "a") (codes "ann@example.org") (codes "admin") (some 10)

abbrev pub bob : User
bob = user_with (codes "b") (codes "bob@example.org") (codes "unprivileged") (some 900)

abbrev pub device_with : Text → Text → Text → Text → List Text → Device
device_with id key addr owner subnets = record {
  id = id;
  name = id;
  description = none;
  public_key = key;
  preshared_key = none;
  use_default_allowed_ips = true;
  use_default_dns = true;
  use_default_endpoint = true;
  use_default_mtu = true;
  use_default_persistent_keepalive = true;
  endpoint = none;
  mtu = none;
  persistent_keepalive = none;
  allowed_ips = [];
  dns = [];
  ipv4 = some addr;
  ipv6 = none;
  allowed_subnets = subnets;
  remote_ip = none;
  rx_bytes = none;
  tx_bytes = none;
  latest_handshake = none;
  user_id = owner;
  inserted_at = 1;
  updated_at = 1;
}

abbrev pub laptop : Device
laptop =
    device_with (codes "d1") (codes "K1") (codes "10.3.2.2") (codes "a") (codes "10.9.0.0/24" ∷ [])

abbrev pub phone : Device
phone = device_with (codes "d2") (codes "K2") (codes "10.3.2.3") (codes "b") []

abbrev pub rule_with : Text → Text → Text → ℕ → Rule
rule_with id action owner priority = record {
  id = id;
  action = action;
  destination = codes "10.0.0.0/8";
  port_type = none;
  port_range = none;
  priority = pos priority;
  user_id = some owner;
  inserted_at = 1;
  updated_at = 1;
}

abbrev pub first_rule : Rule
first_rule = rule_with (codes "r1") (codes "accept") (codes "a") 10

abbrev pub second_rule : Rule
second_rule = rule_with (codes "r2") (codes "drop") (codes "a") 20

abbrev pub ann_token : ApiToken
ann_token = record {
  id = codes "t1";
  token_hash = codes "secret:tok";
  expires_at = some 1000;
  user_id = codes "a";
  inserted_at = 1;
}

abbrev pub ann_totp : MfaMethod
ann_totp = record {
  id = codes "m1";
  name = codes "Authenticator";
  type = codes "totp";
  secret = some (codes "123");
  last_used_at = none;
  user_id = codes "a";
  inserted_at = 1;
  updated_at = 1;
}

abbrev pub sample_provider : Provider
sample_provider = record {
  id = some (codes "idp");
  label = none;
  client_id = some (codes "c");
  client_secret = some (codes "s");
  discovery_document_uri = some (codes "https://idp.example.org");
  scope = none;
  auto_create_users = false;
  metadata = none;
  base_url = none;
  sign_requests = none;
  sign_metadata = none;
  signed_assertion_in_resp = none;
  signed_envelopes_in_resp = none;
}

abbrev pub sample_configuration : Configuration
sample_configuration = record {
  id = codes "c";
  allow_unprivileged_device_management = true;
  allow_unprivileged_device_configuration = true;
  local_auth_enabled = true;
  disable_vpn_on_oidc_error = false;
  default_client_persistent_keepalive = pos 25;
  default_client_mtu = pos 1280;
  default_client_endpoint = none;
  default_client_dns = [];
  default_client_allowed_ips = [];
  allow_peer_to_peer = false;
  allow_lan_to_peers = false;
  server_private_key = none;
  server_public_key = none;
  vpn_session_duration = pos 100;
  logo_url = none;
  logo_type = none;
  openid_connect_providers = sample_provider ∷ [];
  saml_identity_providers = [];
  inserted_at = 1;
  updated_at = 1;
}

abbrev pub sample_db : Database
sample_db = record {
  users = ann ∷ (bob ∷ []);
  devices = laptop ∷ (phone ∷ []);
  rules = first_rule ∷ (second_rule ∷ []);
  api_tokens = ann_token ∷ [];
  mfa_methods = ann_totp ∷ [];
  oidc_connections = [];
  configuration = some sample_configuration;
}
