-- ===== src/Examples/Accounts.antt =====
-- Examples for the account page and the page of the users.
use wiregui.Base.{ℕ, ◌≡◌, ◌&&◌, refl, true, false, none, some, [], Text, codes, eqb, arith}
use wiregui.Base.Int.{pos}
use wiregui.Models.{User, ApiToken}
use wiregui.Database.{find}
use wiregui.Nft.Table.{table_nft}
use wiregui.Auth.{
  Browser, identity_of, enter, open_for, authenticate_user, resolve_bearer_token, token_hmac,
}
use wiregui.AccountPage.{
  PasswordForm, is_acceptable, save_pw, days_of, create_token, delete_token, verify,
}
use wiregui.AccountPage.Passwords.{is_taken, with_new_password, save_pw_lem}
use wiregui.AccountPage.Tokens.{
  resolve_bearer_token-create_token, resolve_bearer_token-delete_token,
}
use wiregui.AccountPage.Factors.{verify_lem}
use wiregui.UsersPage
use wiregui.UsersPage.{UserForm}
use wiregui.UsersPage.Refused.{save_edit_lem}
use wiregui.UsersPage.Kept.{delete_user_lem}
use wiregui.Examples.Library.{plain_library}
use wiregui.Examples.Samples.{sample_settings, sample_db, ann, bob, ann_token}
use wiregui.Examples.Calls.{wg0, service}

abbrev new_password : PasswordForm
new_password = record { cur = codes "pw"; npw = codes "longer pw"; cpw = codes "longer pw" }

found :
    (find (λ v. v.id) ann.id sample_db.users ≡ some ann)
    × (find (λ v. v.email) ann.email sample_db.users ≡ some ann)
unfolding find
found = (refl, refl)

save_pw_lem_example :
    ((is_acceptable new_password
          && is_taken sample_settings plain_library new_password ann.password_hash)
        ≡ true
      → authenticate_user sample_settings plain_library
          (save_pw sample_settings plain_library ann.id new_password [] sample_db)
          ann.email
          (codes "longer pw")
        ≡ some (with_new_password sample_settings plain_library new_password [] ann))
    × ((is_acceptable new_password
            && is_taken sample_settings plain_library new_password ann.password_hash)
          ≡ false
        → save_pw sample_settings plain_library ann.id new_password [] sample_db ≡ sample_db)
    × ((k : Text)
        → eqb ann.id k ≡ false
        → find
            (λ v. v.id)
            k
            (save_pw sample_settings plain_library ann.id new_password [] sample_db).users
          ≡ find (λ v. v.id) k sample_db.users)
save_pw_lem_example =
    save_pw_lem sample_settings plain_library new_password [] ann sample_db found.0 found.1 refl

confirmed :
    (is_acceptable new_password
      && is_taken sample_settings plain_library new_password ann.password_hash)
    ≡ true
confirmed = refl

thirty_days : days_of [] ≡ some (pos 30)
unfolding days_of
thirty_days = refl

resolve_bearer_token-create_token_example :
    resolve_bearer_token sample_settings plain_library
      (create_token sample_settings plain_library
        (codes "t2")
        1000
        ann.id
        (codes "new")
        []
        sample_db).0
      2592000
      (codes "new")
    ≡ some ann
resolve_bearer_token-create_token_example =
    resolve_bearer_token-create_token sample_settings plain_library (codes "t2") [] (codes "new")
      1000 2592000 29 ann sample_db thirty_days (omega arith) found.0 refl

token_there : find (λ (r : ApiToken). r.id) ann_token.id sample_db.api_tokens ≡ some ann_token
unfolding find
token_there = refl

resolve_bearer_token-delete_token_example :
    (ann_token.token_hash ≡ token_hmac sample_settings plain_library (codes "tok")
      → resolve_bearer_token sample_settings plain_library
          (delete_token ann_token.user_id ann_token.id sample_db)
          900
          (codes "tok")
        ≡ none)
    × ((other : Text) (u : User)
        → eqb u.id ann_token.user_id ≡ false
        → resolve_bearer_token sample_settings plain_library sample_db 900 other ≡ some u
        → resolve_bearer_token sample_settings plain_library
            (delete_token ann_token.user_id ann_token.id sample_db)
            900
            other
          ≡ some u)
    × ((user_id : Text)
        → eqb ann_token.user_id user_id ≡ false
        → delete_token user_id ann_token.id sample_db ≡ sample_db)
resolve_bearer_token-delete_token_example =
    resolve_bearer_token-delete_token sample_settings plain_library ann_token (codes "tok") 900
      sample_db (refl, tt) (refl, tt) token_there

same_hash : ann_token.token_hash ≡ token_hmac sample_settings plain_library (codes "tok")
same_hash = refl

abbrev at_login : Browser
at_login = record {
  storage = record { authenticated = none; pending_mfa = none };
  page = codes "/login";
}

verify_lem_example :
    (enter
        (verify sample_settings plain_library
          (codes "m2")
          5
          bob.id
          (codes "42")
          []
          (codes " 42 ")
          sample_db)
        bob
        at_login
      ≡ record {
        storage = record { authenticated = none; pending_mfa = some (identity_of bob) };
        page = codes "/mfa";
      })
    × (open_for
          (verify sample_settings plain_library
            (codes "m2")
            5
            bob.id
            (codes "42")
            []
            (codes " 42 ")
            sample_db)
          (some (identity_of bob))
          at_login
        ≡ at_login)
verify_lem_example =
    verify_lem sample_settings plain_library (codes "m2") (codes "42") [] (codes " 42 ") 5 bob
      sample_db at_login refl

abbrev disabling : UserForm
disabling = record { email = ann.email; password = []; role = ann.role; disabled = true }

save_edit_lem_example :
    ((later : ℕ) (token : Text) (v : User)
      → resolve_bearer_token sample_settings plain_library
          (UsersPage.save_edit sample_settings plain_library ann.id disabling 9 [] sample_db)
          later
          token
        ≡ some v
      → eqb v.id ann.id ≡ false)
    × ((email password : Text) (v : User)
        → authenticate_user sample_settings plain_library
            (UsersPage.save_edit sample_settings plain_library ann.id disabling 9 [] sample_db)
            email
            password
          ≡ some v
        → eqb v.id ann.id ≡ false)
save_edit_lem_example =
    save_edit_lem sample_settings plain_library ann.id disabling 9 [] ann sample_db found.0 refl

delete_user_lem_example :
    find
      (λ v. v.id)
      ann.id
      (UsersPage.delete_user sample_settings table_nft wg0 ann.id bob.id
        (sample_db, service.world)).0.users
    ≡ find (λ v. v.id) ann.id sample_db.users
delete_user_lem_example =
    delete_user_lem sample_settings table_nft wg0 ann.id bob.id (sample_db, service.world) ann.id
