-- ===== src/Auth/Login.antt =====
-- The login page and the page of the second factor: wiregui/pages/login.py, mfa_challenge.py and
-- auth_magic.py.
use wiregui.Base.{
  ℕ, Bool, ◌&&◌, Option, none, some, List, [], ◌∷◌, ◌++◌, Text, codes, eqb, filter, strip, truthy,
  text_or_empty, length, ◌==◌, if◌then◌else◌,
}
use wiregui.Settings.{Settings}
use wiregui.Models.{User, MfaMethod}
use wiregui.Database.{Database, find, put_row}
use wiregui.Auth.Libraries.{Primitives, Claims}
use wiregui.Auth.Tokens.{authenticate_user, decode_access_token, create_access_token, enabled_user}

-- What `pending_mfa` holds, and what a login writes into the storage of the browser's user.
pub record Identity : Type 0 where
  pub user_id : Text
  pub email : Text
  pub role : Text
  pub theme_preference : Option Text

-- `app.storage.user`: who is signed in, and who has still to give a code.
pub record Storage : Type 0 where
  pub authenticated : Option Identity
  pub pending_mfa : Option Identity

-- The storage and the page that the browser is sent to.
pub record Browser : Type 0 where
  pub storage : Storage
  pub page : Text

abbrev pub identity_of : User → Identity
identity_of u = record {
  user_id = u.id;
  email = u.email;
  role = u.role;
  theme_preference = some u.theme_preference;
}

abbrev pub sign_in : Identity → Browser → Browser
sign_in who b = record {
  storage = record { authenticated = some who; pending_mfa = b.storage.pending_mfa };
  page = codes "/";
}

-- `_complete_login`
unfoldable pub complete_login : Identity → Browser → Browser
complete_login pending b = record {
  storage = record { authenticated = some pending; pending_mfa = none };
  page = codes "/";
}

-- `_cancel_mfa`
unfoldable pub cancel_mfa : Browser → Browser
cancel_mfa b = record {
  storage = record { authenticated = none; pending_mfa = none };
  page = codes "/login";
}

abbrev pub methods_of : Text → List MfaMethod → List MfaMethod
methods_of user_id ms = filter (λ m. eqb m.user_id user_id) ms

abbrev pub totp_methods : List MfaMethod → List MfaMethod
totp_methods ms = filter (λ m. eqb m.type (codes "totp")) ms

-- The row of the user with the sign-in tracked.
unfoldable pub track_sign_in : ℕ → Text → Text → Database → Database
unfolding find put_row
track_sign_in now method user_id db = elim (find (λ u. u.id) user_id db.users) [
  | none ↦ db
  | some u ↦ record db {
    users =
        put_row (λ v. v.id)
          (record u { last_signed_in_at = some now; last_signed_in_method = some method }) db.users;
  }
]

-- `try_login` once the password is right: with a second factor the login stays pending.
unfoldable pub enter : Database → User → Browser → Browser
enter db u b =
    if length (methods_of u.id db.mfa_methods) == 0 then sign_in (identity_of u) b else record {
      storage = record {
        authenticated = b.storage.authenticated;
        pending_mfa = some (identity_of u);
      };
      page = codes "/mfa";
    }

-- `mfa_challenge_page` as it is opened: without TOTP methods the login is completed.
unfoldable pub open_for : Database → Option Identity → Browser → Browser
unfolding complete_login
open_for db none b = record b { page = codes "/login" }
open_for db (some pending) b =
    if length (totp_methods (methods_of pending.user_id db.mfa_methods)) == 0
    then complete_login pending b
    else b

unfoldable pub open_mfa : Database → Browser → Browser
unfolding open_for
open_mfa db b = open_for db b.storage.pending_mfa b

module _ (settings : Settings) (p : Primitives) where
  abbrev pub enter_as : ℕ → Option User → Database → Browser → Database × Browser
  enter_as now none db b = (db, b)
  enter_as now (some u) db b = (track_sign_in now (codes "local") u.id db, enter db u b)

  unfoldable pub try_login : ℕ → Text → Text → Database → Browser → Database × Browser
  unfolding authenticate_user track_sign_in enter
  try_login now email password db b =
      enter_as now (authenticate_user settings p db email password) db b

  -- Whether a method takes the code.
  abbrev pub takes : ℕ → Text → MfaMethod → Bool
  takes now code m = truthy m.secret && p.verify_totp (text_or_empty m.secret) code now

  -- The first method that takes the code.
  abbrev pub method_for : ℕ → Text → List MfaMethod → Option MfaMethod
  method_for now code [] = none
  method_for now code (m ∷ ms) =
      let rest = method_for now code ms in if takes now code m then some m else rest

  abbrev pub use_method : ℕ → MfaMethod → Database → Database
  use_method now m db = elim (find (λ k. k.id) m.id db.mfa_methods) [
    | none ↦ db
    | some row ↦ record db {
      mfa_methods = put_row (λ k. k.id) (record row { last_used_at = some now }) db.mfa_methods;
    }
  ]

  abbrev pub accept : ℕ → Identity → Option MfaMethod → Database → Browser → Database × Browser
  accept now pending none db b = (db, b)
  accept now pending (some m) db b = (use_method now m db, complete_login pending b)

  -- `verify_code`, with the identity and the methods that the page was opened with.
  unfoldable pub verify_code :
      ℕ → Identity → List MfaMethod → Text → Database → Browser → Database × Browser
  unfolding complete_login find put_row
  verify_code now pending methods input db b =
      if length (strip input) == 0
      then (db, b)
      else accept now pending (method_for now (strip input) methods) db b

  -- `request_link`: the mail that goes out, by its address and its link.
  unfoldable pub request_link : ℕ → Text → Database → Option (Text × Text)
  unfolding find create_access_token
  request_link now input db =
      if length (strip input) == 0
      then none
      else elim (enabled_user (find (λ u. u.email) (strip input) db.users)) [
        | none ↦ none
        | some u ↦ some (
          strip input,
          settings.external_url
              ++ (codes "/auth/magic/"
                  ++ (u.id
                      ++ (codes "/" ++ create_access_token settings p now u.id u.role (some 900)))),
        )
      ]

  -- The user whom the token of a magic link names, if it is the one of the link.
  abbrev pub named_user : Database → Text → Option Claims → Option User
  named_user db user_id none = none
  named_user db user_id (some claims) =
      if eqb claims.sub user_id then enabled_user (find (λ u. u.id) user_id db.users) else none

  abbrev pub enter_by_link : ℕ → Option User → Database → Browser → Database × Browser
  enter_by_link now none db b = (db, b)
  enter_by_link now (some u) db b =
      (track_sign_in now (codes "magic_link") u.id db, sign_in (identity_of u) b)

  -- `magic_link_verify_page`
  unfoldable pub verify_link : ℕ → Text → Text → Database → Browser → Database × Browser
  unfolding find decode_access_token track_sign_in
  verify_link now user_id token db b =
      enter_by_link now (named_user db user_id (decode_access_token settings p now token)) db b
