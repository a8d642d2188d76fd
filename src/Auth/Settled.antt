-- ===== src/Auth/Settled.antt =====
-- What settles the second factor of a user: no TOTP method in the database, or the code of one.
use wiregui.Base.{
  ℕ, ◌≡◌, refl, sym, ap, ◌∙◌, true, ◌||◌, Option, none, some, List, [], ◌∷◌, All, Text, codes, eqb,
  eqb-eq, strip, length, ◌==◌, is_some, arith, subst, Bool-cases, inl, inr, true-ne-false,
}
use wiregui.Settings.{Settings}
use wiregui.Models.{User, MfaMethod}
use wiregui.Database.{Database}
use wiregui.Auth.Libraries.{Primitives}
use wiregui.Auth.Tokens.{authenticate_user}
use wiregui.Auth.Login.{Identity, methods_of, totp_methods, method_for}
use wiregui.Auth.Machine.{
  Action, give_password, open_page, give_code, cancel, Machine, totp_of, keep_opened, needs_none,
  lets_pass, code_result, perform, code_fits, settles, has_settled, no_totp, code_of, gives_code,
  has_given_code, had_no_totp,
}

no_methods-no_totp :
    (ms : List MfaMethod) (id : Text)
    → (length (methods_of id ms) == 0) ≡ true
    → no_totp ms id ≡ true
no_methods-no_totp [] id h = refl
no_methods-no_totp (k ∷ ks) id h = ground (arith, no_methods-no_totp ks id)

no_totp_methods-no_totp :
    (ms : List MfaMethod) (id : Text)
    → (length (totp_methods (methods_of id ms)) == 0) ≡ true
    → no_totp ms id ≡ true
no_totp_methods-no_totp [] id h = refl
no_totp_methods-no_totp (k ∷ ks) id h = ground (arith, no_totp_methods-no_totp ks id)

-- The methods that the page has are of the user that it was opened for.
abbrev pub IsOwned : Option Identity → List MfaMethod → Type 0
IsOwned none ms = Unit
IsOwned (some who) ms = All (λ k. eqb k.user_id who.user_id ≡ true) ms

totp_methods-All :
    (ms : List MfaMethod) (id : Text)
    → All (λ k. eqb k.user_id id ≡ true) (totp_methods (methods_of id ms))
totp_methods-All [] id = tt
totp_methods-All (k ∷ ks) id = elim (Bool-cases (eqb k.user_id id)) [
  | inr other ↦ rw other (totp_methods-All ks id)
  | inl own ↦ rw own (elim (Bool-cases (eqb k.type (codes "totp"))) [
    | inl totp ↦ rw totp (own, totp_methods-All ks id)
    | inr other ↦ rw other (totp_methods-All ks id)
  ])
]

keep_opened-IsOwned :
    (o : Option Identity) (m : Machine)
    → IsOwned m.opened m.methods
    → IsOwned (keep_opened o m).opened (keep_opened o m).methods
keep_opened-IsOwned none m h = h
keep_opened-IsOwned (some who) m h = elim (Bool-cases (length (totp_of m who.user_id) == 0)) [
  | inl empty ↦ rw empty h
  | inr there ↦ rw there (totp_methods-All m.db.mfa_methods who.user_id)
]

needs_none-no_totp :
    (db : Database) (o : Option User) (id : Text)
    → needs_none db o id ≡ true
    → no_totp db.mfa_methods id ≡ true
needs_none-no_totp db none id h = absurd (true-ne-false (sym h))
needs_none-no_totp db (some u) id h = no_methods-no_totp db.mfa_methods id (
    subst (λ i. (length (methods_of i db.mfa_methods) == 0) ≡ true) (eqb-eq u.id id (ground arith))
      (ground arith))

lets_pass-no_totp :
    (m : Machine) (o : Option Identity) (id : Text)
    → lets_pass m o id ≡ true
    → no_totp m.db.mfa_methods id ≡ true
lets_pass-no_totp m none id h = absurd (true-ne-false (sym h))
lets_pass-no_totp m (some who) id h = no_totp_methods-no_totp m.db.mfa_methods id (
    subst (λ i. (length (totp_of m i) == 0) ≡ true) (eqb-eq who.user_id id (ground arith))
      (ground arith))

module _ (settings : Settings) (p : Primitives) where
  method_for-code_of :
      (now : ℕ) (code id : Text) (ms : List MfaMethod)
      → All (λ k. eqb k.user_id id ≡ true) ms
      → is_some (method_for settings p now code ms) ≡ true
      → code_of settings p now code id ms ≡ true
  method_for-code_of now code id [] owned h = h
  method_for-code_of now code id (k ∷ ks) owned h =
      ground (arith, method_for-code_of now code id ks owned.1)

  code_fits-code_of :
      (now : ℕ) (input : Text) (m : Machine) (o : Option Identity) (id : Text)
      → IsOwned o m.methods
      → code_fits settings p now input m o id ≡ true
      → code_of settings p now (strip input) id m.methods ≡ true
  code_fits-code_of now input m none id owned h = absurd (true-ne-false (sym h))
  code_fits-code_of now input m (some who) id owned h =
      method_for-code_of now (strip input) id m.methods
        (subst (λ i. All (λ k. eqb k.user_id i ≡ true) m.methods)
          (eqb-eq who.user_id id (ground arith)) owned)
        (ground arith)

  settles_lem :
      (a : Action) (m : Machine) (id : Text)
      → IsOwned m.opened m.methods
      → settles settings p a m id ≡ true
      → (no_totp m.db.mfa_methods id || gives_code settings p a m id) ≡ true
  settles_lem (give_password now email password) m id owned h =
      rw (needs_none-no_totp m.db (authenticate_user settings p m.db email password) id h) refl
  settles_lem open_page m id owned h =
      rw (lets_pass-no_totp m m.browser.storage.pending_mfa id h) refl
  settles_lem (give_code now input) m id owned h =
      ground (arith, code_fits-code_of now input m m.opened id owned h)
  settles_lem cancel m id owned h = absurd (true-ne-false (sym h))

  code_result-IsOwned :
      (now : ℕ) (input : Text) (o : Option Identity) (m : Machine)
      → IsOwned m.opened m.methods
      → IsOwned
          (code_result settings p now input m o).opened
          (code_result settings p now input m o).methods
  code_result-IsOwned now input none m h = h
  code_result-IsOwned now input (some who) m h = h

  perform-IsOwned :
      (a : Action) (m : Machine)
      → IsOwned m.opened m.methods
      → IsOwned (perform settings p a m).opened (perform settings p a m).methods
  unfolding perform
  perform-IsOwned (give_password now email password) m h = h
  perform-IsOwned open_page m h = keep_opened-IsOwned m.browser.storage.pending_mfa m h
  perform-IsOwned (give_code now input) m h = code_result-IsOwned now input m.opened m h
  perform-IsOwned cancel m h = h

  pub has_settled_lem :
      (as' : List Action) (m : Machine) (id : Text)
      → IsOwned m.opened m.methods
      → has_settled settings p as' m id ≡ true
      → (had_no_totp settings p as' m id || has_given_code settings p as' m id) ≡ true
  has_settled_lem [] m id owned h = h
  has_settled_lem (a ∷ as') m id owned h = elim (Bool-cases (settles settings p a m id)) [
    | inl now' ↦ ground (arith, settles_lem a m id owned now')
    | inr later ↦ ground (
      arith,
      has_settled_lem as' (perform settings p a m) id (perform-IsOwned a m owned)
          (ap (λ x. x || has_settled settings p as' (perform settings p a m) id) (sym later) ∙ h),
    )
  ]
