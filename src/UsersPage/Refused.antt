-- ===== src/UsersPage/Refused.antt =====
-- Whom the pages and the API refuse after an administrator has disabled them.
use wiregui.Base.{
  ◌≡◌, refl, sym, ap, ◌∙◌, true, false, not, Option, none, some, List, [], ◌∷◌, Text, eqb, is_some,
  All, if◌then◌else◌, Bool-cases, inl, inr, true-ne-false, none-ne-some, some-eq,
}
use wiregui.Settings.{Settings}
use wiregui.Models.{User}
use wiregui.Database.{Database, find, put_row}
use wiregui.Database.Lookup.{find-key}
use wiregui.Auth.{Primitives, is_enabled, authenticate_user, resolve_bearer_token}
use wiregui.Auth.Gate.{resolve_bearer_token_iff, authenticate_user_iff}
use wiregui.UsersPage.{UserForm, edited_user, save_edit, disabled_after}

-- Every row of an id is disabled.
abbrev Off : Text → List User → Type 0
Off uid us = All (λ (v : User). eqb v.id uid ≡ true → is_enabled v ≡ false) us

put_row-Off :
    (uid : Text) (a : User) (us : List User)
    → a.id ≡ uid
    → is_enabled a ≡ false
    → Off uid (put_row (λ v. v.id) a us)
unfolding put_row
put_row-Off uid a [] at_id off = tt
put_row-Off uid a (v ∷ us) at_id off = elim (Bool-cases (eqb v.id a.id)) [
  | inl same ↦ rw same ((λ _. off), put_row-Off uid a us at_id off)
  | inr other ↦ rw other (
    (λ same. absurd (true-ne-false (sym (ap (λ t. eqb v.id t) at_id ∙ same) ∙ other))),
    put_row-Off uid a us at_id off,
  )
]

found-Off :
    (key : User → Text) (k uid : Text) (u : User) (us : List User)
    → Off uid us
    → find key k us ≡ some u
    → is_enabled u ≡ true
    → eqb u.id uid ≡ false
unfolding find
found-Off key k uid u [] off found on = absurd (none-ne-some found)
found-Off key k uid u (v ∷ us) off found on = elim (Bool-cases (eqb (key v) k)) [
  | inl here ↦
      (let is = some-eq (ap (λ b. if b then some v else find key k us) (sym here) ∙ found) in
        elim (Bool-cases (eqb u.id uid)) [
          | inl same ↦ absurd (
              true-ne-false (
                sym (ap (λ (w : User). is_enabled w) is ∙ on)
                ∙ off.0 (ap (λ (w : User). eqb w.id uid) is ∙ same)))
          | inr other ↦ other
        ])
  | inr there ↦
      found-Off key k uid u us off.1
        (ap (λ b. if b then some v else find key k us) (sym there) ∙ found) on
]

is_some-disabled :
    (form : UserForm) (now : _) (o : Option _)
    → form.disabled ≡ true
    → not (is_some (disabled_after form.disabled now o)) ≡ false
is_some-disabled form now none on = rw on refl
is_some-disabled form now (some t) on = rw on refl

module _ (settings : Settings) (p : Primitives) where
  -- Once an administrator has saved a user as disabled, no bearer token and no password lets the
  -- user in.
  pub save_edit_lem :
      (uid : Text) (form : UserForm) (now : _) (salt : Text) (u : User) (db : Database)
      → find (λ v. v.id) uid db.users ≡ some u
      → form.disabled ≡ true
      → ((later : _) (token : Text) (v : User)
          → resolve_bearer_token settings p (save_edit settings p uid form now salt db) later token
            ≡ some v
          → eqb v.id uid ≡ false)
        × ((email password : Text) (v : User)
            → authenticate_user settings p
                (save_edit settings p uid form now salt db)
                email
                password
              ≡ some v
            → eqb v.id uid ≡ false)
  unfolding save_edit edited_user
  save_edit_lem uid form now salt u db there on = rw there (
      let off =
        put_row-Off uid (edited_user settings p form now salt u) db.users
          (find-key (λ v. v.id) uid db.users u there)
          (is_some-disabled form now u.disabled_at on) in
      (
        λ later token v h.
            (let (t, row, valid, found, enabled) =
                (resolve_bearer_token_iff settings p _ later token v).0 h in
              found-Off (λ w. w.id) t.user_id uid v _ off found enabled),
        λ email password v h.
            (let (hash, found, set, fits, enabled) =
                (authenticate_user_iff settings p _ email password v).0 h in
              found-Off (λ w. w.email) email uid v _ off found enabled),
      ))
