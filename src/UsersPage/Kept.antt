-- ===== src/UsersPage/Kept.antt =====
-- Whom the deletion on the users page removes.
use wiregui.Base.{
  ◌≡◌, refl, sym, ap, ◌∙◌, Bool, true, false, none, some, List, [], ◌∷◌, Text, eqb, eqb-eq,
  if◌then◌else◌, Bool-cases, Option-cases, inl, inr, arith,
}
use wiregui.Settings.{Settings}
use wiregui.Models.{User}
use wiregui.Database.{find, delete_row, delete_user_row}
use wiregui.Database.Lookup.{find-key}
use wiregui.Nft.{Nftables}
use wiregui.Host.{Host}
use wiregui.Accounts.{delete_user_and_cleanup}
use wiregui.UsersPage.{State, delete_user, delete_found}

find-delete_row_lem {ℓ} :
    {A : Type ℓ} (key : A → Text) (k j : Text) (rs : List A)
    → find key k (delete_row key j rs) ≡ (if eqb j k then none else find key k rs)
unfolding find delete_row
find-delete_row_lem key k j [] = ground arith
find-delete_row_lem key k j (r ∷ rs) = elim (Bool-cases (eqb (key r) j)) [
  | inl gone ↦ rw gone (find-delete_row_lem key k j rs ∙ dropped (eqb j k) refl gone)
  | inr kept ↦ rw kept (
      ap (λ o. if eqb (key r) k then some r else o) (find-delete_row_lem key k j rs)
      ∙ swapped (eqb j k) refl kept)
]
  where
    dropped :
        (b : Bool)
        → eqb j k ≡ b
        → eqb (key r) j ≡ true
        → (if b then none else find key k rs)
          ≡ (if b then none else if eqb (key r) k then some r else find key k rs)
    dropped true h gone = refl
    dropped false h gone = rw (ap (λ t. eqb t k) (eqb-eq (key r) j gone) ∙ h) refl

    swapped :
        (b : Bool)
        → eqb j k ≡ b
        → eqb (key r) j ≡ false
        → (if eqb (key r) k then some r else if b then none else find key k rs)
          ≡ (if b then none else if eqb (key r) k then some r else find key k rs)
    swapped false h kept = refl
    swapped true h kept = rw (ap (λ t. eqb (key r) t) (sym (eqb-eq j k h)) ∙ kept) refl

module _ (settings : Settings) (n : Nftables) (h : Host settings.wg_interface) where
  removed :
      (u : User) (s : State settings n h)
      → (delete_found settings n h (some u) s).0.users ≡ delete_row (λ v. v.id) u.id s.0.users
  unfolding delete_user_and_cleanup delete_user_row
  removed u s = refl

  -- On the users page an administrator cannot delete the own account, and whoever else is chosen
  -- has no row afterwards; the rows of all others are found as before.
  pub delete_user_lem :
      (current user_id : Text) (s : State settings n h) (k : Text)
      → find (λ v. v.id) k (delete_user settings n h current user_id s).0.users ≡ (
          if eqb user_id current
          then find (λ v. v.id) k s.0.users
          else if eqb user_id k
          then none
          else find (λ v. v.id) k s.0.users)
  unfolding delete_user
  delete_user_lem current user_id s k = elim (Bool-cases (eqb user_id current)) [
    | inl own ↦ rw own refl
    | inr other ↦ rw other (elim (Option-cases (find (λ v. v.id) user_id s.0.users)) [
      | inl missing ↦ rw missing (elim (Bool-cases (eqb user_id k)) [
        | inl same ↦
            rw same (ap (λ t. find (λ v. v.id) t s.0.users) (sym (eqb-eq user_id k same)) ∙ missing)
        | inr apart ↦ rw apart refl
      ])
      | inr (u, there) ↦ rw there (
          ap (find (λ v. v.id) k) (removed u s)
          ∙ find-delete_row_lem (λ v. v.id) k u.id s.0.users
          ∙ ap (λ t. if eqb t k then none else find (λ v. v.id) k s.0.users)
              (find-key (λ v. v.id) user_id s.0.users u there))
    ])
  ]
