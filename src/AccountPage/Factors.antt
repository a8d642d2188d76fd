-- ===== src/AccountPage/Factors.antt =====
-- What a registered method asks of the next login.
use wiregui.Base.{◌≡◌, true, some, [], Text, arith, codes, strip, eqb_refl}
use wiregui.Settings.{Settings}
use wiregui.Models.{User}
use wiregui.Database.{Database}
use wiregui.Auth.{Primitives, Browser, identity_of, enter, open_for, methods_of, complete_login}
use wiregui.AccountPage.{register_key, verify}

module _ (settings : Settings) (p : Primitives) where
  -- Once a TOTP method is registered with a code that fits, a login of the user by password signs
  -- nobody in: it is sent to the page of the second factor, which does not let it pass either.
  pub verify_lem :
      (id secret name code : Text) (now : _) (u : User) (db : Database) (b : Browser)
      → p.verify_totp secret (strip code) now ≡ true
      → (enter (verify settings p id now u.id secret name code db) u b ≡ record {
        storage = record {
          authenticated = b.storage.authenticated;
          pending_mfa = some (identity_of u);
        };
        page = codes "/mfa";
      })
        × (open_for (verify settings p id now u.id secret name code db) (some (identity_of u)) b
            ≡ b)
  unfolding verify enter open_for
  verify_lem id secret name code now u db b right =
      rw right (rw (eqb_refl u.id) (ground arith, ground arith))

-- A user whose first method is a security key is sent to the page of the second factor, and that
-- page completes the login as it opens.
pub register_key_lem :
    (verifies : Text → Text → _) (id challenge answer : Text) (now : _) (u : User) (db : Database)
    (b : Browser)
    → methods_of u.id db.mfa_methods ≡ []
    → verifies answer challenge ≡ true
    → ((enter (register_key verifies id now u.id challenge (some answer) db) u b).page
        ≡ codes "/mfa")
      × (open_for
            (register_key verifies id now u.id challenge (some answer) db)
            (some (identity_of u))
            b
          ≡ complete_login (identity_of u) b)
unfolding register_key enter open_for
register_key_lem verifies id challenge answer now u db b free right =
    rw right (rw (eqb_refl u.id) (rw free (ground arith, ground arith)))
