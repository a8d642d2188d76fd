-- ===== src/Examples/Sso.antt =====
-- Examples for single sign-on.
use wiregui.Base.{◌≡◌, ◌⊎◌, refl, true, none, some, [], ◌∷◌, Text, codes, eqb, if◌then◌else◌}
use wiregui.Models.{User}
use wiregui.Database.{find}
use wiregui.Auth.{
  OidcToken, empty_session, Drawn, callback_email, auto_create, handed_over, back_to_login,
  oidc_callback, is_enabled, SamlResponse, process_response, saml_callback,
}
use wiregui.Auth.Callbacks.{oidc_callback_lem, saml_callback_lem}
use wiregui.Examples.Samples.{sample_db, sample_provider, bob}

abbrev ids : Drawn
ids = record { user_id = codes "u9"; connection_id = codes "c9" }

-- The user information has no address, and the ID token has Bob's.
abbrev bob_token : OidcToken
bob_token = record {
  userinfo = none;
  endpoint = some (record { email = none; sub = some (codes "17") });
  id_claims = some (record { email = some (codes "bob@example.org"); sub = some (codes "17") });
  refresh_token = some (codes "refresh");
  response = codes "{}";
}

bob_email : callback_email bob_token ≡ some (codes "bob@example.org")
unfolding callback_email
bob_email = refl

bob_enters :
    (oidc_callback ids 5
      (codes "idp")
      (some sample_provider)
      (some bob_token)
      sample_db
      empty_session).session
    ≡ handed_over bob
unfolding oidc_callback
bob_enters = refl

oidc_callback_lem_example :
    (oidc_callback ids 5
        (codes "idp")
        (some sample_provider)
        (some bob_token)
        sample_db
        empty_session
      ≡ back_to_login sample_db empty_session)
    ⊎ ((u : User) × (email : Text) × (callback_email bob_token ≡ some email)
        × (u.email ≡ email)
        × (is_enabled u ≡ true)
        × ((find (λ r. r.email) email sample_db.users ≡ some u)
            ⊎ ((find (λ r. r.email) email sample_db.users ≡ none)
                × (auto_create (some sample_provider) ≡ true)))
        × ((oidc_callback ids 5
              (codes "idp")
              (some sample_provider)
              (some bob_token)
              sample_db
              empty_session).session
            ≡ handed_over u)
        × ((oidc_callback ids 5
              (codes "idp")
              (some sample_provider)
              (some bob_token)
              sample_db
              empty_session).page
            ≡ codes "/auth/complete"))
oidc_callback_lem_example =
    oidc_callback_lem ids 5 (codes "idp") (some sample_provider) bob_token sample_db empty_session

abbrev bob_response : SamlResponse
bob_response = record {
  errors = [];
  is_authenticated = true;
  attributes =
      λ name. if eqb name (codes "email") then some (codes "bob@example.org" ∷ []) else none;
  name_id = none;
}

saml_callback_lem_example :
    (saml_callback
        (codes "u9")
        5
        (codes "idp")
        (some sample_provider)
        (some bob_response)
        sample_db
        empty_session
      ≡ back_to_login sample_db empty_session)
    ⊎ ((u : User) × (email : Text) × (process_response bob_response ≡ some email)
        × (bob_response.is_authenticated ≡ true)
        × (u.email ≡ email)
        × (is_enabled u ≡ true)
        × ((find (λ v. v.email) email sample_db.users ≡ some u)
            ⊎ ((find (λ v. v.email) email sample_db.users ≡ none)
                × (sample_provider.auto_create_users ≡ true)))
        × ((saml_callback
              (codes "u9")
              5
              (codes "idp")
              (some sample_provider)
              (some bob_response)
              sample_db
              empty_session).session
            ≡ handed_over u)
        × ((saml_callback
              (codes "u9")
              5
              (codes "idp")
              (some sample_provider)
              (some bob_response)
              sample_db
              empty_session).page
            ≡ codes "/auth/complete"))
saml_callback_lem_example =
    saml_callback_lem (codes "u9") 5 (codes "idp") sample_provider bob_response sample_db
      empty_session
