-- ===== src/Examples/Refreshing.antt =====
-- An example of the refresh of OIDC tokens: one provider answers.
use wiregui.Base.{◌≡◌, refl, true, none, some, List, [], ◌∷◌, Text, codes, map}
use wiregui.Models.{OidcConnection}
use wiregui.Auth.{load_providers}
use wiregui.Database.{Database, find}
use wiregui.Tasks.{Answers, Notification, attempt, refreshable, refresh_all}
use wiregui.Tasks.Refreshed.{after_attempts, refresh_all_lem}
use wiregui.Examples.Samples.{ann, sample_db, sample_configuration, sample_provider}

abbrev connection : Text → Text → OidcConnection
connection id provider = record {
  id = id;
  provider = provider;
  refresh_token = some (codes "old");
  refresh_response = none;
  refreshed_at = none;
  user_id = codes "a";
  inserted_at = 1;
  updated_at = 1;
}

abbrev connections : List OidcConnection
connections = connection (codes "o1") (codes "idp") ∷ (connection (codes "o2") (codes "gone") ∷ [])

abbrev connected_db : Database
connected_db = record sample_db { oidc_connections = connections }

abbrev answers : Answers
answers q conn = some (record { refresh_token = some (some (codes "new")); response = codes "{}" })

-- The provider fails, and the user is told where the settings say so.
abbrev failing_db : Database
failing_db = record connected_db {
  configuration = some (record sample_configuration { disable_vpn_on_oidc_error = true });
}

user_told :
    map
      (λ (n : Notification). n.user)
      ((refresh_all (λ id. id) 50 (λ q conn. none) (failing_db, [])).1)
    ≡ some ann.email ∷ []
unfolding refresh_all
user_told = refl

new_token :
    map
      (λ (c : OidcConnection). c.refresh_token)
      ((refresh_all (λ id. id) 50 answers (connected_db, [])).0.oidc_connections)
    ≡ some (codes "new") ∷ (some (codes "old") ∷ [])
unfolding refresh_all
new_token = refl

refresh_all_lem_example :
    ((k : Text)
      → find (λ c. c.id) k (refresh_all (λ id. id) 50 answers (connected_db, [])).0.oidc_connections
        ≡ after_attempts 50
            (attempt answers (sample_provider ∷ []))
            (find (λ c. c.id) k (refreshable connections))
            (find (λ c. c.id) k connections))
    × ((refresh_all (λ id. id) 50 answers (connected_db, [])).0 ≡ record connected_db {
      oidc_connections = (refresh_all (λ id. id) 50 answers (connected_db, [])).0.oidc_connections;
    })
unfolding load_providers
refresh_all_lem_example =
    refresh_all_lem (λ id. id) 50 answers (sample_provider ∷ []) (connected_db, []) refl
      (refl, (refl, tt))
