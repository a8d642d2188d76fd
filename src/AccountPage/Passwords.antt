-- ===== src/AccountPage/Passwords.antt =====
-- After the password is changed on the account page.
use wiregui.Base.{
  ◌≡◌, refl, sym, ap, ◌∙◌, Bool, true, false, ◌&&◌, Option, none, some, Text, eqb, if◌then◌else◌,
  arith, true-ne-false, Bool-cases, inl, inr,
}
use wiregui.Settings.{Settings}
use wiregui.Models.{User}
use wiregui.Database.{Database, find, put_row}
use wiregui.Database.Lookup.{find-put_row, find-put_row_other}
use wiregui.Auth.{Primitives, is_enabled, authenticate_user}
use wiregui.AccountPage.{PasswordForm, is_acceptable, rehash, save_pw}

both-left : (a b : Bool) → (a && b) ≡ true → a ≡ true
both-left a b h = ground arith

both-right : (a b : Bool) → (a && b) ≡ true → b ≡ true
both-right a b h = ground arith

module _ (settings : Settings) (p : Primitives) where
  -- The current password fits, and bcrypt takes both.
  abbrev pub is_taken : PasswordForm → Option Text → Bool
  is_taken form none = false
  is_taken form (some hash) =
      p.takes_password form.cur && (p.checkpw form.cur hash && p.takes_password form.npw)

  abbrev pub with_new_password : PasswordForm → Text → User → User
  with_new_password form salt u = record u { password_hash = some (p.hashpw form.npw salt) }

  rehash_lem :
      (form : PasswordForm) (salt : Text) (u : User) (o : Option Text) (db : Database)
      → rehash settings p form salt u o db ≡ (
          if is_taken form o
          then record db { users = put_row (λ v. v.id) (with_new_password form salt u) db.users }
          else db)
  rehash_lem form salt u none db = refl
  rehash_lem form salt u (some hash) db = refl

  authenticated :
      (db : Database) (form : PasswordForm) (salt : Text) (u : User)
      → find (λ v. v.email) u.email db.users ≡ some (with_new_password form salt u)
      → is_enabled u ≡ true
      → p.takes_password form.npw ≡ true
      → authenticate_user settings p db u.email form.npw ≡ some (with_new_password form salt u)
  unfolding authenticate_user
  authenticated db form salt u found on taken =
      rw found (rw (p.checkpw_law form.npw salt taken) (rw on refl))

  new_taken :
      (form : PasswordForm) (o : Option Text)
      → is_taken form o ≡ true
      → p.takes_password form.npw ≡ true
  new_taken form none h = absurd (true-ne-false (sym h))
  new_taken form (some hash) h = ground arith

  -- For an enabled user, a form that is acceptable and gives the current password, with both
  -- passwords short enough for bcrypt, changes the password: with the new one the user's address
  -- signs in. Any other form changes nothing, and no form changes the row of another user.
  pub save_pw_lem :
      (form : PasswordForm) (salt : Text) (u : User) (db : Database)
      → find (λ v. v.id) u.id db.users ≡ some u
      → find (λ v. v.email) u.email db.users ≡ some u
      → is_enabled u ≡ true
      → ((is_acceptable form && is_taken form u.password_hash) ≡ true
          → authenticate_user settings p (save_pw settings p u.id form salt db) u.email form.npw
            ≡ some (with_new_password form salt u))
        × ((is_acceptable form && is_taken form u.password_hash) ≡ false
            → save_pw settings p u.id form salt db ≡ db)
        × ((k : Text)
            → eqb u.id k ≡ false
            → find (λ v. v.id) k (save_pw settings p u.id form salt db).users
              ≡ find (λ v. v.id) k db.users)
  unfolding save_pw
  save_pw_lem form salt u db by_id by_email on = (
    λ h. rw (both-left (is_acceptable form) _ h) (
        rw by_id (
          rw (rehash_lem form salt u u.password_hash db) (
            rw (both-right (is_acceptable form) _ h) (
              authenticated _ form salt u
                (find-put_row_other (λ v. v.id) (λ v. v.email) u.id u.email u
                  (with_new_password form salt u) db.users by_id by_email refl refl)
                on (new_taken form u.password_hash (both-right (is_acceptable form) _ h)))))),
    λ h. elim (Bool-cases (is_acceptable form)) [
      | inl good ↦ rw good (
          rw by_id (
            rw (rehash_lem form salt u u.password_hash db)
              (rw (ap (λ a. a && is_taken form u.password_hash) (sym good) ∙ h) refl)))
      | inr bad ↦ rw bad refl
    ],
    λ k other. elim (Bool-cases (is_acceptable form)) [
      | inl good ↦ rw good (
          rw by_id (
            rw (rehash_lem form salt u u.password_hash db)
              (elim (Bool-cases (is_taken form u.password_hash)) [
                | inl fits ↦ rw fits (
                    find-put_row (λ v. v.id) k (with_new_password form salt u) db.users
                    ∙ rw other refl)
                | inr unfit ↦ rw unfit refl
              ])))
      | inr bad ↦ rw bad refl
    ],
  )
