-- ===== src/Auth/Libraries.antt =====
-- The libraries that the authentication calls: hmac, bcrypt, pyotp and PyJWT.
use wiregui.Base.{ℕ, ◌≡◌, Bool, true, Option, none, some, Text, ltb, if◌then◌else◌}

-- The claims of a JWT.
pub record Claims : Type 0 where
  pub sub : Text
  pub role : Text
  pub exp : ℕ

pub record Primitives : Type 0 where
  -- `hmac.new(key, message, "sha256").hexdigest()`
  pub hmac_sha256 : Text → Text → Text
  -- `bcrypt.checkpw`, and `bcrypt.hashpw` with the salt that is drawn.
  pub checkpw : Text → Text → Bool
  pub hashpw : Text → Text → Text
  -- Whether both take the password: more than 72 bytes are a `ValueError`.
  pub takes_password : Text → Bool
  -- `pyotp.TOTP(secret).verify(code, valid_window=1)` at a time.
  pub verify_totp : Text → Text → ℕ → Bool
  -- `jwt.encode` and `jwt.decode` with a key; `none` is an invalid or expired token.
  pub jwt_encode : Text → Claims → Text
  pub jwt_decode : Text → ℕ → Text → Option Claims
  -- A password that is taken fits the hash that was made of it.
  pub checkpw_law :
      (password salt : Text)
      → takes_password password ≡ true
      → checkpw password (hashpw password salt) ≡ true
  -- A token that was signed with the key decodes to its claims, until it expires.
  pub jwt_law :
      (key : Text) (now : ℕ) (claims : Claims)
      → jwt_decode key now (jwt_encode key claims)
        ≡ (if ltb now claims.exp then some claims else none)
