-- ===== src/SettingsPage.antt =====
-- wiregui/pages/admin/settings.py: what the handlers of the page write. The row that the page
-- edits is `Configuration`; a row that is missing is an `AttributeError`, which changes nothing.
pub mod Saved
use wiregui.Base.{
  ℕ, Bool, not, ◌&&◌, Option, none, some, List, [], ◌∷◌, ◌++◌, Text, codes, strip, split, filter,
  map, length, ◌==◌, if◌then◌else◌,
}
use wiregui.Base.Int.{ℤ, pos, neg_part, pos_part}
use wiregui.Models.{Provider, Configuration}
use wiregui.Auth.{has_id, Oauth, Registry, unregister_provider}

-- The form of the client defaults. The numbers of its fields are whole, or missing.
pub record DefaultsForm : Type 0 where
  pub endpoint : Text
  pub dns : Text
  pub mtu : Option ℤ
  pub keepalive : Option ℤ
  pub allowed_ips : Text

-- `value.strip() or None`
abbrev pub text_or_none : Text → Option Text
text_or_none t = if length t == 0 then none else some t

-- `[s.strip() for s in value.split(",") if s.strip()]`
unfoldable pub listed : Text → List Text
listed t = filter (λ s. not (length s == 0)) (map strip (split b',' t))

-- `int(value) if value else default`
abbrev pub number_or : ℤ → Option ℤ → ℤ
number_or default none = default
number_or default (some z) = if (pos_part z == 0) && (neg_part z == 0) then default else z

unfoldable pub save_defaults : DefaultsForm → ℕ → Configuration → Configuration
unfolding listed
save_defaults form now c = record c {
  default_client_endpoint = text_or_none (strip form.endpoint);
  default_client_dns = listed form.dns;
  default_client_mtu = number_or (pos 1280) form.mtu;
  default_client_persistent_keepalive = number_or (pos 25) form.keepalive;
  default_client_allowed_ips = listed form.allowed_ips;
  updated_at = now;
}

pub record SecurityForm : Type 0 where
  pub vpn_duration : ℤ
  pub local_auth : Bool
  pub unpriv_mgmt : Bool
  pub unpriv_config : Bool
  pub disable_vpn_oidc : Bool

unfoldable pub save_security : SecurityForm → ℕ → Configuration → Configuration
save_security form now c = record c {
  vpn_session_duration = form.vpn_duration;
  local_auth_enabled = form.local_auth;
  allow_unprivileged_device_management = form.unpriv_mgmt;
  allow_unprivileged_device_configuration = form.unpriv_config;
  disable_vpn_on_oidc_error = form.disable_vpn_oidc;
  updated_at = now;
}

pub record OidcForm : Type 0 where
  pub oidc_id : Text
  pub oidc_label : Text
  pub oidc_scope : Text
  pub oidc_client_id : Text
  pub oidc_client_secret : Text
  pub oidc_discovery : Text
  pub oidc_auto_create : Bool

unfoldable pub provider_of : OidcForm → Provider
provider_of form = record {
  id = some (strip form.oidc_id);
  label = some (strip form.oidc_label);
  client_id = some (strip form.oidc_client_id);
  client_secret = some (strip form.oidc_client_secret);
  discovery_document_uri = some (strip form.oidc_discovery);
  scope = some (strip form.oidc_scope);
  auto_create_users = form.oidc_auto_create;
  metadata = none;
  base_url = none;
  sign_requests = none;
  sign_metadata = none;
  signed_assertion_in_resp = none;
  signed_envelopes_in_resp = none;
}

abbrev is_given : Text → Bool
is_given t = not (length (strip t) == 0)

-- The fields that are required.
abbrev pub is_complete : OidcForm → Bool
is_complete form =
    is_given form.oidc_id
    && (is_given form.oidc_label
        && (is_given form.oidc_client_id
            && (is_given form.oidc_client_secret && is_given form.oidc_discovery)))

-- `[p for p in providers if p.get("id") != provider_id]`
abbrev pub without_provider : Text → List Provider → List Provider
without_provider id qs = filter (λ q. not (has_id id q.id)) qs

unfoldable pub save_oidc_provider : OidcForm → ℕ → Configuration → Configuration
unfolding provider_of
save_oidc_provider form now c =
    if is_complete form
    then record c {
      openid_connect_providers =
          without_provider (strip form.oidc_id) c.openid_connect_providers
          ++ (provider_of form ∷ []);
      updated_at = now;
    }
    else c

unfoldable pub delete_oidc_provider :
    (o : Oauth) → Text → ℕ → Configuration → Registry o → Configuration × Registry o
delete_oidc_provider o provider_id now c r = (
  record c {
    openid_connect_providers = without_provider provider_id c.openid_connect_providers;
    updated_at = now;
  },
  unregister_provider o provider_id r,
)

pub record SamlForm : Type 0 where
  pub saml_id : Text
  pub saml_label : Text
  pub saml_metadata_input : Text
  pub saml_sign_requests : Bool
  pub saml_sign_metadata : Bool
  pub saml_signed_assertion : Bool
  pub saml_signed_envelopes : Bool
  pub saml_auto_create : Bool

unfoldable pub saml_provider_of : Text → SamlForm → Provider
saml_provider_of external_url form = record {
  id = some (strip form.saml_id);
  label = some (strip form.saml_label);
  client_id = none;
  client_secret = none;
  discovery_document_uri = none;
  scope = none;
  auto_create_users = form.saml_auto_create;
  metadata = some (strip form.saml_metadata_input);
  base_url = some (external_url ++ codes "/auth/saml");
  sign_requests = some form.saml_sign_requests;
  sign_metadata = some form.saml_sign_metadata;
  signed_assertion_in_resp = some form.saml_signed_assertion;
  signed_envelopes_in_resp = some form.saml_signed_envelopes;
}

abbrev pub is_complete_saml : SamlForm → Bool
is_complete_saml form =
    is_given form.saml_id && (is_given form.saml_label && is_given form.saml_metadata_input)

unfoldable pub save_saml_provider : Text → SamlForm → ℕ → Configuration → Configuration
unfolding saml_provider_of
save_saml_provider external_url form now c =
    if is_complete_saml form
    then record c {
      saml_identity_providers =
          without_provider (strip form.saml_id) c.saml_identity_providers
          ++ (saml_provider_of external_url form ∷ []);
      updated_at = now;
    }
    else c

unfoldable pub delete_saml_provider : Text → ℕ → Configuration → Configuration
delete_saml_provider provider_id now c = record c {
  saml_identity_providers = without_provider provider_id c.saml_identity_providers;
  updated_at = now;
}
