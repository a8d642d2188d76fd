-- ===== src/Auth/Saml.antt =====
-- SAML: `process_response` of wiregui/auth/saml.py, the callback of wiregui/pages/auth_saml.py, and
-- the page of wiregui/pages/auth_oidc.py on which single sign-on ends.
use wiregui.Base.{
  ℕ, Bool, ◌&&◌, Option, none, some, List, [], ◌∷◌, ◌++◌, Text, codes, truthy, text_or_empty,
  length, ◌==◌, if◌then◌else◌,
}
use wiregui.Models.{User, Provider}
use wiregui.Database.{Database}
use wiregui.Auth.Login.{Identity, Browser, track_sign_in, sign_in}
use wiregui.Auth.Federated.{
  OidcSession, empty_session, Callback, back_to_login, handed_over, find_or_create,
}

-- What the library has read from the response.
pub record SamlResponse : Type 0 where
  pub errors : List Text
  pub is_authenticated : Bool
  pub attributes : Text → Option (List Text)
  pub name_id : Option Text

-- `attrs.get(name, [None])[0]`; the outer `none` is the `IndexError` of an empty list.
abbrev pub first_of : Option (List Text) → Option (Option Text)
first_of none = some none
first_of (some []) = none
first_of (some (v ∷ vs)) = some (some v)

-- `a or b`, where an error in `b` counts only if `b` is looked at.
abbrev pub or_next : Option (Option Text) → Option (Option Text) → Option (Option Text)
or_next none b = none
or_next (some v) b = if truthy v then some v else b

-- The address that `process_response` finds; `none` is an error.
unfoldable pub saml_email : SamlResponse → Option (Option Text)
saml_email r = or_next (first_of (r.attributes (codes "email"))) (
    or_next
      (first_of
        (r.attributes (codes "http://schemas.xmlsoap.org/ws/2005/05/identity/claims/emailaddress")))
      (or_next (first_of (r.attributes (codes "urn:oid:0.9.2342.19200300.100.1.3")))
        (some r.name_id)))

abbrev pub given : Option (Option Text) → Option Text
given none = none
given (some v) = if truthy v then v else none

-- The address of `process_response`, if it gives user data.
unfoldable pub process_response : SamlResponse → Option Text
unfolding saml_email
process_response r =
    if (length r.errors == 0) && r.is_authenticated then given (saml_email r) else none

abbrev pub saml_enter : ℕ → Text → Option (User × Database) → Database → OidcSession → Callback
saml_enter now provider none db session = back_to_login db session
saml_enter now provider (some (u, db')) db session = record {
  db = track_sign_in now (codes "saml:" ++ provider) u.id db';
  session = handed_over u;
  page = codes "/auth/complete";
}

abbrev pub saml_with_email :
    Text → ℕ → Text → Provider → Option Text → Database → OidcSession → Callback
saml_with_email id now provider config none db session = back_to_login db session
saml_with_email id now provider config (some email) db session =
    saml_enter now provider (find_or_create config.auto_create_users id now email db) db session

-- `saml_callback`: `none` is a provider that is not configured, or a response that cannot be read.
unfoldable pub saml_callback :
    Text → ℕ → Text → Option Provider → Option SamlResponse → Database → OidcSession → Callback
unfolding process_response find_or_create track_sign_in
saml_callback id now provider none r db session = back_to_login db session
saml_callback id now provider (some config) none db session = back_to_login db session
saml_callback id now provider (some config) (some r) db session =
    saml_with_email id now provider config (process_response r) db session

abbrev pub theme_of : Option Identity → Option Text
theme_of none = none
theme_of (some who) = who.theme_preference

-- `role or "unprivileged"`
abbrev pub role_or_default : Option Text → Text
role_or_default role = if truthy role then text_or_empty role else codes "unprivileged"

-- `auth_complete_page`: the session is emptied, and its user is signed in.
unfoldable pub auth_complete : OidcSession → Browser → OidcSession × Browser
auth_complete session b =
    if truthy session.oidc_user_id && truthy session.oidc_email
    then (
      empty_session,
      sign_in
          (record {
            user_id = text_or_empty session.oidc_user_id;
            email = text_or_empty session.oidc_email;
            role = role_or_default session.oidc_role;
            theme_preference = theme_of b.storage.authenticated;
          })
          b,
    )
    else (empty_session, record b { page = codes "/login" })
