-- ===== src/Examples/Logins.antt =====
-- Examples for signing in, on libraries that are plain functions.
use wiregui.Base.{
  ◌≡◌, ◌↔◌, none-ne-some, refl, true, false, ◌||◌, none, some, List, [], ◌∷◌, ◌++◌, Text, codes,
  strip, inl,
}
use wiregui.Models.{ApiToken}
use wiregui.Database.{find}
use wiregui.Auth.{
  reply, resolve_bearer_token, require_admin, authenticate_user, is_expired, is_enabled, token_hmac,
  request_link, verify_link, track_sign_in, sign_in, identity_of, Browser, Registry, get_client,
  client_config, get_provider_config, find_provider, upsert_incoming,
}
use wiregui.Auth.Gate.{resolve_bearer_token_iff, authenticate_user_iff, verify_link-request_link}
use wiregui.Auth.Machine.{
  Action, give_password, open_page, give_code, Machine, perform, perform_all, has_given,
  has_given_code, had_no_totp,
}
use wiregui.Auth.Factors.{perform_all_lem}
use wiregui.Auth.Current.{IsCurrent, get_client_lem}
use wiregui.Auth.Seeded.{find_provider-upsert_incoming}
use wiregui.Examples.Library.{plain_library, plain_oauth}
use wiregui.Examples.Samples.{
  sample_settings, sample_db, ann, bob, sample_configuration, sample_provider,
}

abbrev header : Text
header = codes "Bearer tok"

-- The token of Ann resolves while it is valid, and not later.
token_resolves :
    resolve_bearer_token sample_settings plain_library sample_db 900 (codes "tok") ≡ some ann
unfolding resolve_bearer_token
token_resolves = refl

token_expires :
    resolve_bearer_token sample_settings plain_library sample_db 1001 (codes "tok") ≡ none
unfolding resolve_bearer_token
token_expires = refl

admin_passes : require_admin sample_settings plain_library sample_db 900 header ≡ reply ann
unfolding require_admin
admin_passes = refl

resolve_bearer_token_iff_example :
    (resolve_bearer_token sample_settings plain_library sample_db 900 (codes "tok") ≡ some ann) ↔ (
      (t : ApiToken) × (find
          (λ r. r.token_hash)
          (token_hmac sample_settings plain_library (codes "tok"))
          sample_db.api_tokens
        ≡ some t)
      × (is_expired t.expires_at 900 ≡ false)
      × (find (λ r. r.id) t.user_id sample_db.users ≡ some ann)
      × (is_enabled ann ≡ true))
resolve_bearer_token_iff_example =
    resolve_bearer_token_iff sample_settings plain_library sample_db 900 (codes "tok") ann

authenticate_user_iff_example :
    (authenticate_user sample_settings plain_library sample_db
        (codes "bob@example.org")
        (codes "pw")
      ≡ some bob)
    ↔ ((hash : Text) × (find (λ r. r.email) (codes "bob@example.org") sample_db.users ≡ some bob)
        × (bob.password_hash ≡ some hash)
        × (plain_library.checkpw (codes "pw") hash ≡ true)
        × (is_enabled bob ≡ true))
authenticate_user_iff_example =
    authenticate_user_iff sample_settings plain_library sample_db (codes "bob@example.org")
      (codes "pw") bob

abbrev nobody : Browser
nobody = record {
  storage = record { authenticated = none; pending_mfa = none };
  page = codes "/login";
}

bob_there : find (λ r. r.email) (strip (codes " bob@example.org ")) sample_db.users ≡ some bob
unfolding find
bob_there = refl

verify_link-request_link_example :
    (token : Text) × (request_link sample_settings plain_library 1000
        (codes " bob@example.org ")
        sample_db
      ≡ some (
        strip (codes " bob@example.org "),
        sample_settings.external_url ++ (codes "/auth/magic/" ++ (bob.id ++ (codes "/" ++ token))),
      ))
    × (verify_link sample_settings plain_library 1500 bob.id token sample_db nobody ≡ (
      track_sign_in 1500 (codes "magic_link") bob.id sample_db,
      sign_in (identity_of bob) nobody,
    ))
unfolding find
verify_link-request_link_example =
    verify_link-request_link sample_settings plain_library sample_db sample_db 1000 1500
      (codes " bob@example.org ") bob nobody refl bob_there refl

abbrev at_login : Machine
at_login = record { db = sample_db; browser = nobody; opened = none; methods = [] }

-- Ann's password, the page of the second factor, and her code.
abbrev ann_signs_in : List Action
ann_signs_in =
    give_password 100 (codes "ann@example.org") (codes "pw")
    ∷ (open_page ∷ (give_code 101 (codes " 123 ") ∷ []))

ann_signed_in :
    (perform_all sample_settings plain_library ann_signs_in at_login).browser.storage.authenticated
    ≡ some (identity_of ann)
unfolding perform
ann_signed_in = refl

-- A wrong code leaves her signed out.
wrong_code :
    (perform_all sample_settings plain_library
      (give_password 100 (codes "ann@example.org") (codes "pw")
        ∷ (open_page ∷ (give_code 101 (codes "124") ∷ [])))
      at_login).browser.storage.authenticated
    ≡ none
unfolding perform
wrong_code = refl

perform_all_lem_example :
    (has_given sample_settings plain_library ann_signs_in at_login (codes "a") ≡ true)
    × ((had_no_totp sample_settings plain_library ann_signs_in at_login (codes "a")
          || has_given_code sample_settings plain_library ann_signs_in at_login (codes "a"))
        ≡ true)
perform_all_lem_example =
    perform_all_lem sample_settings plain_library ann_signs_in at_login (identity_of ann) refl refl
      refl ann_signed_in

abbrev pub empty_registry : Registry plain_oauth
empty_registry = record {
  oauth = record { registered = (λ k. none); built = (λ k. none) };
  registered = (λ k. none);
}

pub empty-IsCurrent : IsCurrent plain_oauth empty_registry
empty-IsCurrent = record { stored = λ k q h. absurd (none-ne-some h); kept = λ k q h. inl refl }

provider_there :
    get_provider_config (codes "idp") (some sample_configuration) ≡ some sample_provider
unfolding get_provider_config
provider_there = refl

get_client_lem_example :
    ((get_client plain_oauth (codes "idp") (some sample_configuration) empty_registry).0
      ≡ some (client_config sample_provider))
    × IsCurrent plain_oauth
        (get_client plain_oauth (codes "idp") (some sample_configuration) empty_registry).1
get_client_lem_example =
    get_client_lem plain_oauth (codes "idp") (some sample_configuration) sample_provider
      empty_registry empty-IsCurrent refl provider_there

find_provider-upsert_incoming_example :
    find_provider (codes "idp") (upsert_incoming [] (sample_provider ∷ [])) ≡ some sample_provider
find_provider-upsert_incoming_example =
    find_provider-upsert_incoming (codes "idp") [] (sample_provider ∷ []) refl
