-- ===== src/Tasks/Refresh.antt =====
-- `_refresh_all` of wiregui/tasks/oidc_refresh.py. What a provider answers to the refresh of a
-- connection is an argument; `none` is an exception on the way to it.
use wiregui.Base.{
  ℕ, Bool, false, ◌&&◌, Option, none, some, List, [], ◌∷◌, ◌++◌, Text, codes, truthy, is_some,
  filter, if◌then◌else◌,
}
use wiregui.Models.{User, OidcConnection, Provider, Configuration}
use wiregui.Database.{Database, find, put_row}
use wiregui.Auth.{find_provider, load_providers, by_id_from}
use wiregui.Tasks.Notifications.{Notification, add_notification}

-- The token that a provider answers: `refresh_token` is `none` where it has no such entry.
pub record NewToken : Type 0 where
  pub refresh_token : Option (Option Text)
  pub response : Text

abbrev pub Answers : Type 0
Answers = Provider → OidcConnection → Option NewToken

pub data Attempt : Type 0 where
  skipped : Attempt
  refreshed : NewToken → Attempt
  refused : Attempt

abbrev answered : Option NewToken → Attempt
answered none = refused
answered (some token) = refreshed token

-- Without `client_id` or `client_secret` there is a `KeyError`, without a discovery address
-- nothing is tried.
abbrev try_provider : Answers → OidcConnection → Option Provider → Attempt
try_provider answer conn none = skipped
try_provider answer conn (some q) =
    if is_some q.client_id && is_some q.client_secret
    then (if truthy q.discovery_document_uri then answered (answer q conn) else skipped)
    else refused

unfoldable pub attempt : Answers → List Provider → OidcConnection → Attempt
unfolding find_provider
attempt answer providers conn = try_provider answer conn (find_provider conn.provider providers)

abbrev pub token_or : Option Text → Option (Option Text) → Option Text
token_or old none = old
token_or old (some new) = new

abbrev pub with_new_token : NewToken → ℕ → OidcConnection → OidcConnection
with_new_token token now c = record c {
  refresh_token = token_or c.refresh_token token.refresh_token;
  refresh_response = some token.response;
  refreshed_at = some now;
}

abbrev pub store_token : NewToken → ℕ → Option OidcConnection → Database → Database
store_token token now none db = db
store_token token now (some c) db = record db {
  oidc_connections = put_row (λ d. d.id) (with_new_token token now c) db.oidc_connections;
}

-- `if config and config.disable_vpn_on_oidc_error`
abbrev disables_vpn : Option Configuration → Bool
disables_vpn none = false
disables_vpn (some config) = config.disable_vpn_on_oidc_error

abbrev failure_notice : Text → ℕ → Text → User → Notification
failure_notice id now provider u = record {
  id = id;
  severity = codes "error";
  message =
      codes "OIDC refresh failed for "
      ++ (u.email ++ (codes " (" ++ (provider ++ codes "). VPN access may be affected.")));
  user = some u.email;
  timestamp = now;
}

abbrev notify_user : Text → ℕ → Text → Option User → List Notification → List Notification
notify_user id now provider none q = q
notify_user id now provider (some u) q = add_notification (failure_notice id now provider u) q

-- The `except` branch.
unfoldable pub report_failure :
    (Text → Text) → ℕ → OidcConnection → Database → List Notification → List Notification
unfolding add_notification find
report_failure ids now conn db q =
    if disables_vpn db.configuration
    then notify_user (ids conn.id) now conn.provider (find (λ u. u.id) conn.user_id db.users) q
    else q

abbrev pub settle :
    (Text → Text)
    → ℕ
    → OidcConnection
    → Attempt
    → Database × List Notification
    → Database × List Notification
settle ids now conn skipped r = r
settle ids now conn (refreshed token) r =
    (store_token token now (find (λ c. c.id) conn.id r.0.oidc_connections) r.0, r.1)
settle ids now conn refused r = (r.0, report_failure ids now conn r.0 r.1)

unfoldable pub refresh_connections :
    (Text → Text)
    → ℕ
    → Answers
    → List Provider
    → List OidcConnection
    → Database × List Notification
    → Database × List Notification
unfolding attempt report_failure find put_row
refresh_connections ids now answer providers [] r = r
refresh_connections ids now answer providers (conn ∷ conns) r =
    refresh_connections ids now answer providers conns
      (settle ids now conn (attempt answer providers conn) r)

-- `WHERE refresh_token IS NOT NULL`
abbrev pub refreshable : List OidcConnection → List OidcConnection
refreshable cs = filter (λ c. is_some c.refresh_token) cs

abbrev refresh_with :
    (Text → Text)
    → ℕ
    → Answers
    → Option (List Provider)
    → Database × List Notification
    → Database × List Notification
refresh_with ids now answer none r = r
refresh_with ids now answer (some providers) r =
    refresh_connections ids now answer providers (refreshable r.0.oidc_connections) r

-- A provider without an id is a `KeyError`, which ends the cycle.
unfoldable pub refresh_all :
    (Text → Text) → ℕ → Answers → Database × List Notification → Database × List Notification
unfolding refresh_connections load_providers
refresh_all ids now answer r =
    refresh_with ids now answer (by_id_from [] (load_providers r.0.configuration)) r
