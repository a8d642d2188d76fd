-- ===== src/Auth/Federated.antt =====
-- Single sign-on: the callbacks of wiregui/pages/auth_oidc.py and auth_saml.py, and
-- `process_response` of wiregui/auth/saml.py. What the provider answers is an argument.
use wiregui.Base.{
  ℕ, Bool, false, ◌&&◌, Option, none, some, List, [], ◌∷◌, ◌++◌, Text, codes, eqb, contains, truthy,
  text_or_empty, if◌then◌else◌,
}
use wiregui.Models.{User, OidcConnection, Provider}
use wiregui.Database.{Database, find}
use wiregui.Auth.Tokens.{is_enabled}
use wiregui.Auth.Login.{track_sign_in}

-- The entries of the provider's user information, and of the claims of the ID token.
pub record Userinfo : Type 0 where
  pub email : Option Text
  pub sub : Option Text

-- The answer to the exchange of the code.
pub record OidcToken : Type 0 where
  pub userinfo : Option Userinfo
  -- What the userinfo endpoint would answer; `none` is an error.
  pub endpoint : Option Userinfo
  -- The claims of the ID token, where there is one that can be decoded.
  pub id_claims : Option Userinfo
  pub refresh_token : Option Text
  pub response : Text

-- `a or b` of optional texts.
abbrev pub or_text : Option Text → Option Text → Option Text
or_text a b = if truthy a then a else b

abbrev pub first_info : Option Userinfo → Option Userinfo → Option Userinfo
first_info (some u) endpoint = some u
first_info none endpoint = endpoint

abbrev pub email_in : Option Userinfo → Option Text
email_in none = none
email_in (some u) = u.email

abbrev pub sub_in : Option Userinfo → Option Text
sub_in none = none
sub_in (some u) = u.sub

-- The claims fill in what the user information does not have.
abbrev pub fill_in : Option Userinfo → Option Userinfo → Option Userinfo
fill_in info none = info
fill_in info (some claims) =
    if truthy (email_in info)
    then info
    else some (record { email = claims.email; sub = or_text (sub_in info) claims.sub })

abbrev pub at_sign : Option Text → Option Text
at_sign sub = if contains b'@' (text_or_empty sub) then sub else none

-- The address that the callback takes the user for, if there is one. Without an address and with a
-- `sub` that is null, the source ends in a `TypeError`; here that is `none` too, as in both cases
-- nothing is changed and nobody signed in.
unfoldable pub callback_email : OidcToken → Option Text
callback_email token =
    let info = fill_in (first_info token.userinfo token.endpoint) token.id_claims in
    let email = or_text (email_in info) (at_sign (sub_in info)) in
    if truthy email then email else none

-- The session of Starlette, which `/auth/complete` takes the user from.
pub record OidcSession : Type 0 where
  pub oidc_user_id : Option Text
  pub oidc_email : Option Text
  pub oidc_role : Option Text

abbrev pub empty_session : OidcSession
empty_session = record { oidc_user_id = none; oidc_email = none; oidc_role = none }

-- The row of a user that a provider makes; the id and the time are those drawn for it.
unfoldable pub new_user : Text → ℕ → Text → User
new_user id now email = record {
  id = id;
  email = email;
  password_hash = none;
  role = codes "unprivileged";
  last_signed_in_at = none;
  last_signed_in_method = none;
  sign_in_token_hash = none;
  sign_in_token_created_at = none;
  disabled_at = none;
  theme_preference = codes "auto";
  inserted_at = now;
  updated_at = now;
}

-- `auto_create_users` of a provider that may have been removed.
abbrev pub auto_create : Option Provider → Bool
auto_create none = false
auto_create (some q) = q.auto_create_users

abbrev pub with_user : User → Database → Database
with_user u db = record db { users = u ∷ db.users }

-- Finding the user, or making one if the provider may; `none` is the way back to `/login`.
unfoldable pub find_or_create : Bool → Text → ℕ → Text → Database → Option (User × Database)
unfolding find new_user
find_or_create auto id now email db = elim (find (λ u. u.email) email db.users) [
  | some u ↦ if is_enabled u then some (u, db) else none
  | none ↦ if auto then some (new_user id now email, with_user (new_user id now email) db) else none
]

abbrev pub is_connection : Text → Text → OidcConnection → Bool
is_connection user_id provider c = eqb c.user_id user_id && eqb c.provider provider

-- The connection of the user with the provider is written over, or made.
unfoldable pub put_connection : OidcConnection → List OidcConnection → List OidcConnection
put_connection new [] = new ∷ []
put_connection new (c ∷ cs) =
    let rest = put_connection new cs in
    if is_connection new.user_id new.provider c
    then record c {
      refresh_token = new.refresh_token;
      refreshed_at = new.refreshed_at;
      refresh_response = new.refresh_response;
    }
      ∷ cs
    else c ∷ rest

unfoldable pub connection_of : Text → ℕ → Text → Text → OidcToken → OidcConnection
connection_of id now provider user_id token = record {
  id = id;
  provider = provider;
  refresh_token = token.refresh_token;
  refresh_response = some token.response;
  refreshed_at = some now;
  user_id = user_id;
  inserted_at = now;
  updated_at = now;
}

abbrev pub handed_over : User → OidcSession
handed_over u = record {
  oidc_user_id = some u.id;
  oidc_email = some u.email;
  oidc_role = some u.role;
}

-- What a callback does: the database, the session, and the page that is next.
pub record Callback : Type 0 where
  pub db : Database
  pub session : OidcSession
  pub page : Text

abbrev pub back_to_login : Database → OidcSession → Callback
back_to_login db session = record { db = db; session = session; page = codes "/login" }

-- The ids that are drawn for the rows that a callback makes.
pub record Drawn : Type 0 where
  pub user_id : Text
  pub connection_id : Text

abbrev pub oidc_enter :
    Drawn → ℕ → Text → OidcToken → Option (User × Database) → Database → OidcSession → Callback
oidc_enter ids now provider token none db session = back_to_login db session
oidc_enter ids now provider token (some (u, db')) db session =
    (let tracked = track_sign_in now (codes "oidc:" ++ provider) u.id db' in
      record {
        db = record tracked {
          oidc_connections =
              put_connection (connection_of ids.connection_id now provider u.id token)
                tracked.oidc_connections;
        };
        session = handed_over u;
        page = codes "/auth/complete";
      })

abbrev pub oidc_with_email :
    Drawn → ℕ → Text → Bool → OidcToken → Option Text → Database → OidcSession → Callback
oidc_with_email ids now provider auto token none db session = back_to_login db session
oidc_with_email ids now provider auto token (some email) db session =
    oidc_enter ids now provider token (find_or_create auto ids.user_id now email db) db session

-- `oidc_callback`: `none` is a provider that is not configured, or an exchange that fails.
unfoldable pub oidc_callback :
    Drawn → ℕ → Text → Option Provider → Option OidcToken → Database → OidcSession → Callback
unfolding callback_email find_or_create put_connection connection_of track_sign_in
oidc_callback ids now provider config none db session = back_to_login db session
oidc_callback ids now provider config (some token) db session =
    oidc_with_email ids now provider (auto_create config) token (callback_email token) db session
