-- ===== src/Auth/Factors.antt =====
-- What whoever is signed in by the login pages has given.
use wiregui.Base.{
  ℕ, ◌≡◌, refl, sym, Bool, true, false, not, ◌&&◌, ◌||◌, Option, none, some, List, [], ◌∷◌, subst,
  Text, codes, eqb, eqb_refl, strip, length, ◌==◌, is_some, if◌then◌else◌,
}
use wiregui.Settings.{Settings}
use wiregui.Models.{User, MfaMethod}
use wiregui.Auth.Libraries.{Primitives}
use wiregui.Auth.Tokens.{authenticate_user}
use wiregui.Auth.Login.{
  Identity, track_sign_in, open_for, methods_of, method_for, try_login, open_mfa, verify_code,
  cancel_mfa, enter_as, enter, accept, complete_login,
}
use wiregui.Auth.Machine.{
  Action, give_password, open_page, give_code, cancel, Machine, totp_of, keep_opened, put_result,
  is_user, needs_none, lets_pass, code_result, perform, perform_all, gives, code_fits, settles,
  has_given, has_settled, has_given_code, had_no_totp,
}
use wiregui.Auth.Settled.{IsOwned, has_settled_lem}
use wiregui.Auth.Vouched.{
  Flagged, joined, Flagged-joined, joined_assoc, IsVouched, IsVouched-joined, or_true, entered,
  opened_page,
}

module _ (settings : Settings) (p : Primitives) where
  password_lem :
      (now : ℕ) (o : Option User) (g s : Text → Bool) (m : Machine)
      → IsVouched g s m
      → IsVouched
          (joined g (is_user o))
          (joined s (needs_none m.db o))
          (put_result m (enter_as settings p now o m.db m.browser))
  unfolding enter
  password_lem now none g s m v = IsVouched-joined g s _ _ m v
  password_lem now (some u) g s m v =
      entered (length (methods_of u.id m.db.mfa_methods) == 0) u
        (track_sign_in now (codes "local") u.id m.db) g s m v

  open_lem :
      (o : Option Identity) (g s : Text → Bool) (m : Machine)
      → Flagged g o
      → IsVouched g s m
      → IsVouched
          (joined g (λ _. false))
          (joined s (lets_pass m o))
          (record (keep_opened o m) { browser = open_for m.db o m.browser })
  unfolding open_for
  open_lem none g s m ok v = record {
    given = Flagged-joined g _ _ v.given;
    settled = Flagged-joined s _ _ v.settled;
    pending = Flagged-joined g _ _ v.pending;
    opened = Flagged-joined g _ _ v.opened;
  }
  open_lem (some who) g s m ok v = opened_page (length (totp_of m who.user_id) == 0) who g s m ok v

  -- The result of a code, which a method has taken or not.
  accepted :
      (blank : Bool) (now : ℕ) (who : Identity) (o : Option MfaMethod) (g s : Text → Bool)
      (m : Machine)
      → Flagged g (some who)
      → IsVouched g s m
      → IsVouched
          (joined g (λ _. false))
          (joined s (λ id. eqb who.user_id id && (not blank && is_some o)))
          (put_result m
            (if blank then (m.db, m.browser) else accept settings p now who o m.db m.browser))
  unfolding complete_login
  accepted true now who o g s m ok v = IsVouched-joined g s _ _ m v
  accepted false now who none g s m ok v = IsVouched-joined g s _ _ m v
  accepted false now who (some k) g s m ok v = record {
    given = rw ok refl;
    settled = rw (eqb_refl who.user_id) (or_true (s who.user_id));
    pending = tt;
    opened = Flagged-joined g _ _ v.opened;
  }

  code_lem :
      (now : ℕ) (input : Text) (o : Option Identity) (g s : Text → Bool) (m : Machine)
      → Flagged g o
      → IsVouched g s m
      → IsVouched
          (joined g (λ _. false))
          (joined s (code_fits settings p now input m o))
          (code_result settings p now input m o)
  unfolding verify_code
  code_lem now input none g s m ok v = IsVouched-joined g s _ _ m v
  code_lem now input (some who) g s m ok v =
      accepted (length (strip input) == 0) now who
        (method_for settings p now (strip input) m.methods) g s m ok v

  perform-IsVouched :
      (a : Action) (g s : Text → Bool) (m : Machine)
      → IsVouched g s m
      → IsVouched
          (joined g (gives settings p a m))
          (joined s (settles settings p a m))
          (perform settings p a m)
  unfolding perform try_login open_mfa cancel_mfa
  perform-IsVouched (give_password now email password) g s m v =
      password_lem now (authenticate_user settings p m.db email password) g s m v
  perform-IsVouched open_page g s m v = open_lem m.browser.storage.pending_mfa g s m v.pending v
  perform-IsVouched (give_code now input) g s m v = code_lem now input m.opened g s m v.opened v
  perform-IsVouched cancel g s m v = record {
    given = tt;
    settled = tt;
    pending = tt;
    opened = Flagged-joined g _ _ v.opened;
  }

  run-IsVouched :
      (as' : List Action) (g s : Text → Bool) (m : Machine)
      → IsVouched g s m
      → IsVouched
          (joined g (has_given settings p as' m))
          (joined s (has_settled settings p as' m))
          (perform_all settings p as' m)
  run-IsVouched [] g s m v = IsVouched-joined g s _ _ m v
  run-IsVouched (a ∷ as') g s m v =
      subst
        (λ (f : Text → Bool).
          IsVouched f (joined s (has_settled settings p (a ∷ as') m))
            (perform_all settings p (a ∷ as') m))
        (joined_assoc g _ _)
        (subst
          (λ (f : Text → Bool).
            IsVouched
              (joined (joined g (gives settings p a m))
                (has_given settings p as' (perform settings p a m)))
              f (perform_all settings p as' (perform settings p a m)))
          (joined_assoc s _ _)
          (run-IsVouched as' _ _ (perform settings p a m) (perform-IsVouched a g s m v)))

  -- From a browser in which nobody is signed in or pending, whoever is signed in after any actions
  -- on the login pages has given the password of that user; and either one of the actions has found
  -- the user without a TOTP method in the database, or one has given a code that a TOTP secret of
  -- the user takes.
  pub perform_all_lem :
      (as' : List Action) (m : Machine) (who : Identity)
      → m.browser.storage.authenticated ≡ none
      → m.browser.storage.pending_mfa ≡ none
      → m.opened ≡ none
      → (perform_all settings p as' m).browser.storage.authenticated ≡ some who
      → (has_given settings p as' m who.user_id ≡ true)
        × ((had_no_totp settings p as' m who.user_id || has_given_code settings p as' m who.user_id)
            ≡ true)
  perform_all_lem as' m who out idle shut signed_in =
      let v = run-IsVouched as' (λ _. false) (λ _. false) m start in
      (
        subst (Flagged _) signed_in v.given,
        has_settled_lem settings p as' m who.user_id
            (subst (λ o. IsOwned o m.methods) (sym shut) tt)
            (subst (Flagged _) signed_in v.settled),
      )
    where
      start : IsVouched (λ _. false) (λ _. false) m
      start = record {
        given = subst (Flagged _) (sym out) tt;
        settled = subst (Flagged _) (sym out) tt;
        pending = subst (Flagged _) (sym idle) tt;
        opened = subst (Flagged _) (sym shut) tt;
      }
