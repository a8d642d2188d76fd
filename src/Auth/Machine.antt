-- ===== src/Auth/Machine.antt =====
-- A browser on the login page and the page of the second factor, as a machine that runs the
-- user's actions.
use wiregui.Base.{
  ℕ, Bool, true, false, not, ◌&&◌, ◌||◌, Option, none, some, List, [], ◌∷◌, Text, codes, eqb, strip,
  text_or_empty, length, ◌==◌, is_some,
}
use wiregui.Settings.{Settings}
use wiregui.Models.{User, MfaMethod}
use wiregui.Database.{Database}
use wiregui.Auth.Libraries.{Primitives}
use wiregui.Auth.Tokens.{authenticate_user}
use wiregui.Auth.Login.{
  Identity, Browser, methods_of, totp_methods, method_for, try_login, open_mfa, verify_code,
  cancel_mfa,
}

pub data Action : Type 0 where
  give_password : ℕ → Text → Text → Action
  open_page : Action
  give_code : ℕ → Text → Action
  cancel : Action

-- The identity and the methods are those that the page of the second factor was last opened with.
pub record Machine : Type 0 where
  pub db : Database
  pub browser : Browser
  pub opened : Option Identity
  pub methods : List MfaMethod

abbrev pub totp_of : Machine → Text → List MfaMethod
totp_of m user_id = totp_methods (methods_of user_id m.db.mfa_methods)

abbrev pub keep_if : Bool → Identity → Machine → Machine
keep_if true who m = m
keep_if false who m = record m { opened = some who; methods = totp_of m who.user_id }

-- What the page keeps when it opens: nothing, if it completes the login at once.
abbrev pub keep_opened : Option Identity → Machine → Machine
keep_opened none m = m
keep_opened (some who) m = keep_if (length (totp_of m who.user_id) == 0) who m

abbrev pub put_result : Machine → Database × Browser → Machine
put_result m r = record m { db = r.0; browser = r.1 }

abbrev pub is_user : Option User → Text → Bool
is_user none user_id = false
is_user (some u) user_id = eqb u.id user_id

abbrev pub needs_none : Database → Option User → Text → Bool
needs_none db none user_id = false
needs_none db (some u) user_id = eqb u.id user_id && (length (methods_of u.id db.mfa_methods) == 0)

abbrev pub lets_pass : Machine → Option Identity → Text → Bool
lets_pass m none user_id = false
lets_pass m (some who) user_id = eqb who.user_id user_id && (length (totp_of m who.user_id) == 0)

-- Whether no row of the table is a TOTP method of the user.
abbrev pub no_totp : List MfaMethod → Text → Bool
no_totp [] user_id = true
no_totp (k ∷ ks) user_id =
    not (eqb k.user_id user_id && eqb k.type (codes "totp")) && no_totp ks user_id

module _ (settings : Settings) (p : Primitives) where
  abbrev pub code_result : ℕ → Text → Machine → Option Identity → Machine
  code_result now input m none = m
  code_result now input m (some who) =
      put_result m (verify_code settings p now who m.methods input m.db m.browser)

  unfoldable pub perform : Action → Machine → Machine
  unfolding try_login open_mfa verify_code cancel_mfa
  perform (give_password now email password) m =
      put_result m (try_login settings p now email password m.db m.browser)
  perform open_page m =
      (let kept = keep_opened m.browser.storage.pending_mfa m in
        record kept { browser = open_mfa m.db m.browser })
  perform (give_code now input) m = code_result now input m m.opened
  perform cancel m = record m { browser = cancel_mfa m.browser }

  abbrev pub perform_all : List Action → Machine → Machine
  perform_all [] m = m
  perform_all (a ∷ as') m = perform_all as' (perform a m)

  -- Whether the action gives the password of the user.
  abbrev pub gives : Action → Machine → Text → Bool
  gives (give_password now email password) m user_id =
      is_user (authenticate_user settings p m.db email password) user_id
  gives open_page m user_id = false
  gives (give_code now input) m user_id = false
  gives cancel m user_id = false

  abbrev pub code_fits : ℕ → Text → Machine → Option Identity → Text → Bool
  code_fits now input m none user_id = false
  code_fits now input m (some who) user_id =
      eqb who.user_id user_id
      && (not (length (strip input) == 0)
          && is_some (method_for settings p now (strip input) m.methods))

  -- Whether the action settles the second factor of the user: by a password where the user has no
  -- method, by the page where no method is TOTP, and by a code that a method takes.
  abbrev pub settles : Action → Machine → Text → Bool
  settles (give_password now email password) m user_id =
      needs_none m.db (authenticate_user settings p m.db email password) user_id
  settles open_page m user_id = lets_pass m m.browser.storage.pending_mfa user_id
  settles (give_code now input) m user_id = code_fits now input m m.opened user_id
  settles cancel m user_id = false

  -- Whether one of the actions has done so.
  abbrev pub has_given : List Action → Machine → Text → Bool
  has_given [] m user_id = false
  has_given (a ∷ as') m user_id = gives a m user_id || has_given as' (perform a m) user_id

  abbrev pub has_settled : List Action → Machine → Text → Bool
  has_settled [] m user_id = false
  has_settled (a ∷ as') m user_id = settles a m user_id || has_settled as' (perform a m) user_id

  -- Whether a TOTP secret of the user, among the methods that the page has, has the code.
  abbrev pub code_of : ℕ → Text → Text → List MfaMethod → Bool
  code_of now code user_id [] = false
  code_of now code user_id (k ∷ ks) =
      (eqb k.user_id user_id && p.verify_totp (text_or_empty k.secret) code now)
      || code_of now code user_id ks

  abbrev pub gives_code : Action → Machine → Text → Bool
  gives_code (give_password now email password) m user_id = false
  gives_code open_page m user_id = false
  gives_code (give_code now input) m user_id = code_of now (strip input) user_id m.methods
  gives_code cancel m user_id = false

  -- Whether one of the actions has done so.
  abbrev pub has_given_code : List Action → Machine → Text → Bool
  has_given_code [] m user_id = false
  has_given_code (a ∷ as') m user_id =
      gives_code a m user_id || has_given_code as' (perform a m) user_id

  -- Whether the user had no TOTP method in the database at one of the actions.
  abbrev pub had_no_totp : List Action → Machine → Text → Bool
  had_no_totp [] m user_id = false
  had_no_totp (a ∷ as') m user_id =
      no_totp m.db.mfa_methods user_id || had_no_totp as' (perform a m) user_id
