-- ===== src/Auth/Callbacks.antt =====
-- Whom the callbacks of single sign-on let in.
use wiregui.Base.{
  ℕ, ◌≡◌, ◌⊎◌, refl, sym, ap, ◌∙◌, Bool, true, Option, none, some, List, [], ◌∷◌, Text, codes, eqb,
  eqb-eq, if◌then◌else◌, Bool-cases, Option-cases, inl, inr, none-ne-some, some-eq, length, ◌==◌,
  ◌&&◌, arith,
}
use wiregui.Base.Guards.{when_some}
use wiregui.Models.{User, Provider}
use wiregui.Database.{Database, find}
use wiregui.Auth.Tokens.{is_enabled}
use wiregui.Auth.Federated.{
  OidcToken, OidcSession, Callback, Drawn, new_user, with_user, auto_create, find_or_create,
  callback_email, handed_over, back_to_login, oidc_enter, oidc_with_email, oidc_callback,
}
use wiregui.Auth.Saml.{SamlResponse, process_response, saml_enter, saml_with_email, saml_callback}

find-key {ℓ} :
    {A : Type ℓ} (key : A → Text) (k : Text) (rs : List A) (r : A)
    → find key k rs ≡ some r
    → key r ≡ k
unfolding find
find-key key k [] r h = absurd (none-ne-some h)
find-key key k (q ∷ qs) r h = elim (Bool-cases (eqb (key q) k)) [
  | inl same ↦
      ap key (sym (some-eq (ap (λ b. if b then some q else find key k qs) (sym same) ∙ h)))
      ∙ eqb-eq (key q) k same
  | inr other ↦ find-key key k qs r (ap (λ b. if b then some q else find key k qs) (sym other) ∙ h)
]

-- Whom a provider that vouches for an address lets in: the enabled user of that address, or a new
-- one where there is none and the provider may make users.
abbrev pub IsEntitled : Bool → Text → Database → User → Type 0
IsEntitled auto email db u =
    (u.email ≡ email)
    × (is_enabled u ≡ true)
    × ((find (λ r. r.email) email db.users ≡ some u)
        ⊎ ((find (λ r. r.email) email db.users ≡ none) × (auto ≡ true)))

find_or_create_lem :
    (auto : Bool) (id : Text) (now : ℕ) (email : Text) (db : Database)
    → (find_or_create auto id now email db ≡ none)
      ⊎ ((u : User) × (db' : Database) × (find_or_create auto id now email db ≡ some (u, db'))
          × IsEntitled auto email db u)
unfolding find_or_create new_user
find_or_create_lem auto id now email db =
    elim (Option-cases (find (λ (r : User). r.email) email db.users)) [
      | inr (u, there) ↦ elim (Bool-cases (is_enabled u)) [
        | inl on ↦ inr (
          u,
          db,
          rw (there, find_or_create) (rw on refl),
          (find-key (λ (r : User). r.email) email db.users u there, on, inl there),
        )
        | inr off ↦ inl (rw (there, find_or_create) (rw off refl))
      ]
      | inl missing ↦ elim (Bool-cases auto) [
        | inl may ↦ inr (
          new_user id now email,
          with_user (new_user id now email) db,
          rw (missing, may, find_or_create) refl,
          (refl, refl, inr (missing, may)),
        )
        | inr never ↦ inl (rw (missing, never, find_or_create) refl)
      ]
    ]

-- A callback ends back at the login page with nothing changed, or hands over a user that the
-- provider has vouched for.
abbrev pub IsVouchedFor : Bool → Option Text → Database → OidcSession → Callback → Type 0
IsVouchedFor auto vouched db session r =
    (r ≡ back_to_login db session)
    ⊎ ((u : User) × (email : Text) × (vouched ≡ some email)
        × IsEntitled auto email db u
        × (r.session ≡ handed_over u)
        × (r.page ≡ codes "/auth/complete"))

oidc_with_email_lem :
    (ids : Drawn) (now : ℕ) (provider : Text) (auto : Bool) (token : OidcToken) (o : Option Text)
    (db : Database) (session : OidcSession)
    → IsVouchedFor auto o db session (oidc_with_email ids now provider auto token o db session)
oidc_with_email_lem ids now provider auto token none db session = inl refl
oidc_with_email_lem ids now provider auto token (some email) db session =
    elim (find_or_create_lem auto ids.user_id now email db) [
      | inl none_found ↦ inl (ap (λ o. oidc_enter ids now provider token o db session) none_found)
      | inr (u, db', found, entitled) ↦ inr (
        u,
        email,
        refl,
        entitled,
        ap (λ o. (oidc_enter ids now provider token o db session).session) found,
        ap (λ o. (oidc_enter ids now provider token o db session).page) found,
      )
    ]

-- The callback of an OIDC provider ends back at the login page with nothing changed, or hands over
-- the enabled user of the address that the provider gave, or a new user of that address where
-- there was none and the provider may make users.
pub oidc_callback_lem :
    (ids : Drawn) (now : ℕ) (provider : Text) (config : Option Provider) (token : OidcToken)
    (db : Database) (session : OidcSession)
    → (oidc_callback ids now provider config (some token) db session ≡ back_to_login db session)
      ⊎ ((u : User) × (email : Text) × (callback_email token ≡ some email)
          × (u.email ≡ email)
          × (is_enabled u ≡ true)
          × ((find (λ r. r.email) email db.users ≡ some u)
              ⊎ ((find (λ r. r.email) email db.users ≡ none) × (auto_create config ≡ true)))
          × ((oidc_callback ids now provider config (some token) db session).session
              ≡ handed_over u)
          × ((oidc_callback ids now provider config (some token) db session).page
              ≡ codes "/auth/complete"))
unfolding oidc_callback
oidc_callback_lem ids now provider config token db session =
    elim (oidc_with_email_lem ids now provider (auto_create config) token (callback_email token) db
      session) [
        | inl back ↦ inl back
        | inr (u, email, vouched, (is, on, how), kept, next) ↦
            inr (u, email, vouched, is, on, how, kept, next)
      ]

authenticated_lem :
    (r : SamlResponse) (email : Text) → process_response r ≡ some email → r.is_authenticated ≡ true
unfolding process_response
authenticated_lem r email h =
    let (passed, _) = (when_some ((length r.errors == 0) && r.is_authenticated) _ email).0 h in
    ground (arith, passed)

saml_with_email_lem :
    (id : Text) (now : ℕ) (provider : Text) (config : Provider) (o : Option Text) (db : Database)
    (session : OidcSession)
    → IsVouchedFor config.auto_create_users o db session
        (saml_with_email id now provider config o db session)
saml_with_email_lem id now provider config none db session = inl refl
saml_with_email_lem id now provider config (some email) db session =
    elim (find_or_create_lem config.auto_create_users id now email db) [
      | inl none_found ↦ inl (ap (λ o. saml_enter now provider o db session) none_found)
      | inr (u, db', found, entitled) ↦ inr (
        u,
        email,
        refl,
        entitled,
        ap (λ o. (saml_enter now provider o db session).session) found,
        ap (λ o. (saml_enter now provider o db session).page) found,
      )
    ]

-- The callback of a SAML provider does the same on the address of a response without errors that
-- is authenticated.
pub saml_callback_lem :
    (id : Text) (now : ℕ) (provider : Text) (config : Provider) (r : SamlResponse) (db : Database)
    (session : OidcSession)
    → (saml_callback id now provider (some config) (some r) db session ≡ back_to_login db session)
      ⊎ ((u : User) × (email : Text) × (process_response r ≡ some email)
          × (r.is_authenticated ≡ true)
          × (u.email ≡ email)
          × (is_enabled u ≡ true)
          × ((find (λ v. v.email) email db.users ≡ some u)
              ⊎ ((find (λ v. v.email) email db.users ≡ none) × (config.auto_create_users ≡ true)))
          × ((saml_callback id now provider (some config) (some r) db session).session
              ≡ handed_over u)
          × ((saml_callback id now provider (some config) (some r) db session).page
              ≡ codes "/auth/complete"))
unfolding saml_callback
saml_callback_lem id now provider config r db session =
    elim (saml_with_email_lem id now provider config (process_response r) db session) [
      | inl back ↦ inl back
      | inr (u, email, vouched, (is, on, how), kept, next) ↦
          inr (u, email, vouched, authenticated_lem r email vouched, is, on, how, kept, next)
    ]
