-- ===== src/Models/Configurations.antt =====
-- wiregui/models/configuration.py
use wiregui.Base.{ℕ, Bool, Option, List, Text}
use wiregui.Base.Int.{ℤ}

-- An identity provider: the entries of its JSON object, of one for OIDC and of one for SAML.
pub record Provider : Type 0 where
  pub id : Option Text
  pub label : Option Text
  pub client_id : Option Text
  pub client_secret : Option Text
  pub discovery_document_uri : Option Text
  pub scope : Option Text
  pub auto_create_users : Bool
  pub metadata : Option Text
  pub base_url : Option Text
  pub sign_requests : Option Bool
  pub sign_metadata : Option Bool
  pub signed_assertion_in_resp : Option Bool
  pub signed_envelopes_in_resp : Option Bool

pub record Configuration : Type 0 where
  pub id : Text
  pub allow_unprivileged_device_management : Bool
  pub allow_unprivileged_device_configuration : Bool
  pub local_auth_enabled : Bool
  pub disable_vpn_on_oidc_error : Bool
  pub default_client_persistent_keepalive : ℤ
  pub default_client_mtu : ℤ
  pub default_client_endpoint : Option Text
  pub default_client_dns : List Text
  pub default_client_allowed_ips : List Text
  pub allow_peer_to_peer : Bool
  pub allow_lan_to_peers : Bool
  pub server_private_key : Option Text
  pub server_public_key : Option Text
  pub vpn_session_duration : ℤ
  pub logo_url : Option Text
  pub logo_type : Option Text
  pub openid_connect_providers : List Provider
  pub saml_identity_providers : List Provider
  pub inserted_at : ℕ
  pub updated_at : ℕ
