-- ===== src/Models/Users.antt =====
-- wiregui/models/user.py, api_token.py and mfa_method.py
use wiregui.Base.{ℕ, Option, Text}

pub record User : Type 0 where
  pub id : Text
  pub email : Text
  pub password_hash : Option Text
  pub role : Text
  pub last_signed_in_at : Option ℕ
  pub last_signed_in_method : Option Text
  pub sign_in_token_hash : Option Text
  pub sign_in_token_created_at : Option ℕ
  pub disabled_at : Option ℕ
  pub theme_preference : Text
  pub inserted_at : ℕ
  pub updated_at : ℕ

pub record ApiToken : Type 0 where
  pub id : Text
  pub token_hash : Text
  pub expires_at : Option ℕ
  pub user_id : Text
  pub inserted_at : ℕ

-- `secret` is the entry of that name in the method's JSON payload.
pub record MfaMethod : Type 0 where
  pub id : Text
  pub name : Text
  pub type : Text
  pub secret : Option Text
  pub last_used_at : Option ℕ
  pub user_id : Text
  pub inserted_at : ℕ
  pub updated_at : ℕ

-- wiregui/models/oidc_connection.py. The token's JSON is kept as text.
pub record OidcConnection : Type 0 where
  pub id : Text
  pub provider : Text
  pub refresh_token : Option Text
  pub refresh_response : Option Text
  pub refreshed_at : Option ℕ
  pub user_id : Text
  pub inserted_at : ℕ
  pub updated_at : ℕ
