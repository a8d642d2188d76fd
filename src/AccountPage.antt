-- ===== src/AccountPage.antt =====
-- wiregui/pages/account.py: what its handlers write for the user who is signed in. A handler that
-- raises changes nothing.
pub mod Passwords
pub mod Tokens
pub mod Factors
use wiregui.Base.{
  ℕ, zero, suc, ◌+◌, ◌*◌, Bool, true, false, not, ◌||◌, ◌&&◌, Option, none, some, List, [], ◌∷◌,
  Text, codes, eqb, leb, ltb, length, ◌==◌, strip, if◌then◌else◌,
}
use wiregui.Base.Int.{ℤ, pos, negsuc}
use wiregui.Settings.{Settings}
use wiregui.Models.{User, ApiToken, MfaMethod}
use wiregui.Database.{Database, find, put_row, delete_row}
use wiregui.Nft.{Nftables}
use wiregui.Host.{Host}
use wiregui.Events.{World}
use wiregui.Accounts.{delete_user_and_cleanup}
use wiregui.Auth.{Primitives, token_hmac, methods_of}
use wiregui.DevicePages.{read_int}

pub record PasswordForm : Type 0 where
  pub cur : Text
  pub npw : Text
  pub cpw : Text

-- The fields are filled, the new password is given twice, and it has 8 characters at least.
abbrev pub is_acceptable : PasswordForm → Bool
is_acceptable form =
    not ((length form.cur == 0) || (length form.npw == 0))
    && (eqb form.npw form.cpw && not (ltb (length form.npw) 8))

-- 9999-12-31 23:59:59, the last second that a `datetime` can hold.
abbrev pub last_second : ℕ
last_second = 253402300799

-- `utcnow() + timedelta(days=days) if days > 0 else None`; `none` is the `OverflowError`.
unfoldable pub expiry_of : ℕ → ℤ → Option (Option ℕ)
expiry_of now (negsuc n) = some none
expiry_of now (pos zero) = some none
expiry_of now (pos (suc n)) =
    if leb (now + (suc n) * 86400) last_second then some (some (now + (suc n) * 86400)) else none

abbrev pub expiry_read : ℕ → Option ℤ → Option (Option ℕ)
expiry_read now none = none
expiry_read now (some days) = expiry_of now days

-- `int(token_days.value) if token_days.value else 30`
unfoldable pub days_of : Text → Option ℤ
unfolding read_int
days_of [] = some (pos 30)
days_of (c ∷ t) = read_int (c ∷ t)

-- The row with the id is deleted if it belongs to the user.
abbrev pub delete_owned {ℓ} :
    {A : Type ℓ} → (A → Text) → (A → Text) → Text → Option A → List A → List A
delete_owned id owner user_id none rows = rows
delete_owned id owner user_id (some r) rows =
    if eqb (owner r) user_id then delete_row id (id r) rows else rows

-- `delete_token`
unfoldable pub delete_token : Text → Text → Database → Database
unfolding find delete_row
delete_token user_id token_id db = record db {
  api_tokens =
      delete_owned (λ t. t.id) (λ t. t.user_id) user_id (find (λ t. t.id) token_id db.api_tokens)
        db.api_tokens;
}

-- `_del_mfa`
unfoldable pub del_mfa : Text → Text → Database → Database
unfolding find delete_row
del_mfa user_id method_id db = record db {
  mfa_methods =
      delete_owned (λ m. m.id) (λ m. m.user_id) user_id (find (λ m. m.id) method_id db.mfa_methods)
        db.mfa_methods;
}

abbrev pub or_default : Text → Text → Text
or_default default t = if length t == 0 then default else t

unfoldable pub totp_row : Text → ℕ → Text → Text → Text → MfaMethod
totp_row id now user_id name secret = record {
  id = id;
  name = or_default (codes "Authenticator") (strip name);
  type = codes "totp";
  secret = some secret;
  last_used_at = none;
  user_id = user_id;
  inserted_at = now;
  updated_at = now;
}

-- The payload of a security key has no entry `secret`.
unfoldable pub key_row : Text → ℕ → Text → MfaMethod
key_row id now user_id = record {
  id = id;
  name = codes "Security Key";
  type = codes "portable";
  secret = none;
  last_used_at = none;
  user_id = user_id;
  inserted_at = now;
  updated_at = now;
}

abbrev pub with_method : MfaMethod → Database → Database
with_method m db = record db { mfa_methods = m ∷ db.mfa_methods }

-- The end of `start_webauthn`: what the browser answered, if it is no error, and whether the
-- library webauthn verifies it for the challenge.
unfoldable pub register_key :
    (Text → Text → Bool) → Text → ℕ → Text → Text → Option Text → Database → Database
unfolding key_row
register_key verifies id now user_id challenge none db = db
register_key verifies id now user_id challenge (some answer) db =
    if verifies answer challenge then with_method (key_row id now user_id) db else db

module _ (settings : Settings) (p : Primitives) where
  -- A password that is too long raises in `verify_password` or in `hash_password`.
  abbrev pub rehash : PasswordForm → Text → User → Option Text → Database → Database
  rehash form salt u none db = db
  rehash form salt u (some hash) db =
      if p.takes_password form.cur && (p.checkpw form.cur hash && p.takes_password form.npw)
      then record db {
        users =
            put_row (λ v. v.id) (record u { password_hash = some (p.hashpw form.npw salt) })
              db.users;
      }
      else db

  abbrev pub change_hash : PasswordForm → Text → Option User → Database → Database
  change_hash form salt none db = db
  change_hash form salt (some u) db = rehash form salt u u.password_hash db

  -- `save_pw`
  unfoldable pub save_pw : Text → PasswordForm → Text → Database → Database
  unfolding find put_row
  save_pw user_id form salt db =
      if is_acceptable form
      then change_hash form salt (find (λ u. u.id) user_id db.users) db
      else db

  abbrev pub token_row : Text → ℕ → Text → Text → Option ℕ → ApiToken
  token_row id now user_id plaintext expires_at = record {
    id = id;
    token_hash = token_hmac settings p plaintext;
    expires_at = expires_at;
    user_id = user_id;
    inserted_at = now;
  }

  abbrev pub store_token :
      Text → ℕ → Text → Text → Option (Option ℕ) → Database → Database × Option Text
  store_token id now user_id plaintext none db = (db, none)
  store_token id now user_id plaintext (some expires_at) db = (
    record db { api_tokens = token_row id now user_id plaintext expires_at ∷ db.api_tokens },
    some plaintext,
  )

  -- `create_token`, with the text that is drawn for the token, and what is shown of it.
  unfoldable pub create_token : Text → ℕ → Text → Text → Text → Database → Database × Option Text
  unfolding days_of expiry_of
  create_token id now user_id plaintext days db =
      store_token id now user_id plaintext (expiry_read now (days_of days)) db

  -- `verify`, which registers a TOTP method with the secret that was shown.
  unfoldable pub verify : Text → ℕ → Text → Text → Text → Text → Database → Database
  unfolding totp_row
  verify id now user_id secret name code db =
      if p.verify_totp secret (strip code) now
      then with_method (totp_row id now user_id name secret) db
      else db

module _ (settings : Settings) (n : Nftables) (h : Host settings.wg_interface) where
  abbrev pub cleaned : Option User → Database × World settings n h → Database × World settings n h
  cleaned none s = s
  cleaned (some u) s = delete_user_and_cleanup settings n h u.id s.0 s.1

  -- `do_del`, on the address that the page was opened with; the storage of the browser is cleared.
  unfoldable pub do_del :
      Text → Text → Text → Database × World settings n h → Database × World settings n h
  unfolding find delete_user_and_cleanup
  do_del user_id email typed s =
      if eqb (strip typed) email then cleaned (find (λ u. u.id) user_id s.0.users) s else s
