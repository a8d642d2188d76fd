-- ===== src/Auth/Tokens.antt =====
-- wiregui/auth/api_token.py, session.py, jwt.py and passwords.py, wiregui/api/deps.py, and
-- wiregui/auth/middleware.py.
use wiregui.Base.{
  ℕ, ◌+◌, Bool, false, not, ◌||◌, Option, none, some, List, [], ◌∷◌, Text, codes, eqb, starts_with,
  drop, ltb, is_some, if◌then◌else◌,
}
use wiregui.Settings.{Settings}
use wiregui.Models.{User, ApiToken}
use wiregui.Database.{Database, find}
use wiregui.Auth.Libraries.{Primitives, Claims}

-- What a handler of the API gives: a value, or an `HTTPException` by its status.
pub data Reply {ℓ} (A : Type ℓ) : Type ℓ where
  reply : A → Reply A
  http_error : ℕ → Reply A

abbrev pub is_enabled : User → Bool
is_enabled u = not (is_some u.disabled_at)

abbrev pub is_admin : User → Bool
is_admin u = eqb u.role (codes "admin")

abbrev pub enabled_user : Option User → Option User
enabled_user none = none
enabled_user (some u) = if is_enabled u then some u else none

-- `expires_at and expires_at < now`
abbrev pub is_expired : Option ℕ → ℕ → Bool
is_expired none now = false
is_expired (some at') now = ltb at' now

module _ (settings : Settings) (p : Primitives) where
  -- `_token_hmac`
  abbrev pub token_hmac : Text → Text
  token_hmac token = p.hmac_sha256 settings.secret_key token

  -- `resolve_bearer_token` after the query for the token's row.
  unfoldable pub user_of_token : Database → ℕ → Option ApiToken → Option User
  unfolding find
  user_of_token db now none = none
  user_of_token db now (some t) =
      if is_expired t.expires_at now
      then none
      else enabled_user (find (λ u. u.id) t.user_id db.users)

  unfoldable pub resolve_bearer_token : Database → ℕ → Text → Option User
  unfolding find user_of_token
  resolve_bearer_token db now token =
      user_of_token db now (find (λ t. t.token_hash) (token_hmac token) db.api_tokens)

  abbrev pub or_401 : Option User → Reply User
  or_401 none = http_error 401
  or_401 (some u) = reply u

  -- `get_current_api_user` on the `Authorization` header, which is empty when it is not sent.
  unfoldable pub get_current_api_user : Database → ℕ → Text → Reply User
  unfolding resolve_bearer_token
  get_current_api_user db now header =
      if starts_with (codes "Bearer ") header
      then or_401 (resolve_bearer_token db now (drop 7 header))
      else http_error 401

  abbrev pub or_403 : Reply User → Reply User
  or_403 (http_error status) = http_error status
  or_403 (reply u) = if is_admin u then reply u else http_error 403

  unfoldable pub require_admin : Database → ℕ → Text → Reply User
  unfolding get_current_api_user
  require_admin db now header = or_403 (get_current_api_user db now header)

  -- The user, if the password fits the hash and the user is enabled.
  abbrev pub fits : Text → User → Option Text → Option User
  fits password u none = none
  fits password u (some hash) = if p.checkpw password hash then enabled_user (some u) else none

  abbrev pub with_password : Text → Option User → Option User
  with_password password none = none
  with_password password (some u) = fits password u u.password_hash

  unfoldable pub authenticate_user : Database → Text → Text → Option User
  unfolding find
  authenticate_user db email password = with_password password (find (λ u. u.email) email db.users)

  -- `create_access_token`; times are in seconds.
  unfoldable pub create_access_token : ℕ → Text → Text → Option ℕ → Text
  create_access_token now user_id role none =
      p.jwt_encode settings.secret_key (record { sub = user_id; role = role; exp = now + 28800 })
  create_access_token now user_id role (some delta) =
      p.jwt_encode settings.secret_key (record { sub = user_id; role = role; exp = now + delta })

  unfoldable pub decode_access_token : ℕ → Text → Option Claims
  decode_access_token now token = p.jwt_decode settings.secret_key now token

abbrev starts_with_any : List Text → Text → Bool
starts_with_any [] path = false
starts_with_any (prefix ∷ rest) path = starts_with prefix path || starts_with_any rest path

-- `PUBLIC_PREFIXES`
abbrev pub public_prefixes : List Text
public_prefixes = codes "/login" ∷ (codes "/_nicegui" ∷ (codes "/api" ∷ []))

-- `AuthMiddleware.dispatch`: whether the request goes on; else it is sent to `/login`.
unfoldable pub dispatch_passes : Text → Bool → Bool
dispatch_passes path authenticated = starts_with_any public_prefixes path || authenticated
