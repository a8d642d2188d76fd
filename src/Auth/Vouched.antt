-- ===== src/Auth/Vouched.antt =====
-- What is known of every identity that a machine of the login pages holds.
use wiregui.Base.{
  ◌≡◌, refl, Bool, true, false, ◌&&◌, ◌||◌, Option, none, some, fun_ext, Text, codes, eqb, eqb_refl,
  if◌then◌else◌, arith,
}
use wiregui.Models.{User}
use wiregui.Database.{Database}
use wiregui.Auth.Login.{Identity, identity_of, sign_in, complete_login}
use wiregui.Auth.Machine.{Machine, keep_if, put_result}

-- The flag is up for the identity, if there is one.
abbrev pub Flagged : (Text → Bool) → Option Identity → Type 0
Flagged g none = Unit
Flagged g (some who) = g who.user_id ≡ true

abbrev pub joined : (Text → Bool) → (Text → Bool) → Text → Bool
joined g f user_id = g user_id || f user_id

pub joined_assoc : (g f r : Text → Bool) → joined (joined g f) r ≡ joined g (joined f r)
joined_assoc g f r = fun_ext (λ id. ground arith)

pub Flagged-joined :
    (g f : Text → Bool) (o : Option Identity) → Flagged g o → Flagged (joined g f) o
Flagged-joined g f none h = tt
Flagged-joined g f (some who) h = rw h refl

-- Every identity in the machine has given a password, and one that is signed in has settled the
-- second factor.
pub record IsVouched (g s : Text → Bool) (m : Machine) : Type 0 where
  pub given : Flagged g m.browser.storage.authenticated
  pub settled : Flagged s m.browser.storage.authenticated
  pub pending : Flagged g m.browser.storage.pending_mfa
  pub opened : Flagged g m.opened

pub IsVouched-joined :
    (g s f r : Text → Bool) (m : Machine) → IsVouched g s m → IsVouched (joined g f) (joined s r) m
IsVouched-joined g s f r m v = record {
  given = Flagged-joined g f _ v.given;
  settled = Flagged-joined s r _ v.settled;
  pending = Flagged-joined g f _ v.pending;
  opened = Flagged-joined g f _ v.opened;
}

pub or_true : (b : Bool) → (b || true) ≡ true
or_true b = ground arith

-- Signing a user in, or leaving the login pending, after the password.
pub entered :
    (c : Bool) (u : User) (db : Database) (g s : Text → Bool) (m : Machine)
    → IsVouched g s m
    → IsVouched (joined g (λ id. eqb u.id id)) (joined s (λ id. eqb u.id id && c)) (
        put_result m (
          db,
          if c then sign_in (identity_of u) m.browser else record {
            storage = record {
              authenticated = m.browser.storage.authenticated;
              pending_mfa = some (identity_of u);
            };
            page = codes "/mfa";
          },
        ))
entered true u db g s m v = record {
  given = rw (eqb_refl u.id) (or_true (g u.id));
  settled = rw (eqb_refl u.id) (or_true (s u.id));
  pending = Flagged-joined g _ _ v.pending;
  opened = Flagged-joined g _ _ v.opened;
}
entered false u db g s m v = record {
  given = Flagged-joined g _ _ v.given;
  settled = Flagged-joined s _ _ v.settled;
  pending = rw (eqb_refl u.id) (or_true (g u.id));
  opened = Flagged-joined g _ _ v.opened;
}

-- Opening the page of the second factor: the login is completed, or the page is kept.
pub opened_page :
    (c : Bool) (who : Identity) (g s : Text → Bool) (m : Machine)
    → Flagged g (some who)
    → IsVouched g s m
    → IsVouched
        (joined g (λ _. false))
        (joined s (λ id. eqb who.user_id id && c))
        (record (keep_if c who m) {
          browser = if c then complete_login who m.browser else m.browser;
        })
unfolding complete_login
opened_page true who g s m ok v = record {
  given = rw ok refl;
  settled = rw (eqb_refl who.user_id) (or_true (s who.user_id));
  pending = tt;
  opened = Flagged-joined g _ _ v.opened;
}
opened_page false who g s m ok v = record {
  given = Flagged-joined g _ _ v.given;
  settled = Flagged-joined s _ _ v.settled;
  pending = Flagged-joined g _ _ v.pending;
  opened = rw ok refl;
}
