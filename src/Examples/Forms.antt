-- ===== src/Examples/Forms.antt =====
-- Examples for the forms of the settings page.
use wiregui.Base.{◌≡◌, refl, true, none, some, [], ◌∷◌, Text, codes, eqb, if◌then◌else◌}
use wiregui.Models.{Configuration}
use wiregui.Auth.{Registry, get_provider_config, get_client}
use wiregui.Auth.Current.{IsCurrent}
use wiregui.SettingsPage.{OidcForm, listed, save_oidc_provider, delete_oidc_provider}
use wiregui.SettingsPage.Saved.{get_provider_config-save_oidc_provider, delete_oidc_provider_lem}
use wiregui.Examples.Library.{plain_oauth}
use wiregui.Examples.Samples.{sample_configuration, sample_provider}
use wiregui.Examples.Logins.{empty_registry, empty-IsCurrent}

abbrev new_idp : OidcForm
new_idp = record {
  oidc_id = codes " idp2 ";
  oidc_label = codes "Second";
  oidc_scope = codes "openid email";
  oidc_client_id = codes "c2";
  oidc_client_secret = codes "s2";
  oidc_discovery = codes "https://idp2.example.org";
  oidc_auto_create = true;
}

abbrev incomplete : OidcForm
incomplete = record new_idp { oidc_client_secret = codes "  " }

-- A secret of blanks is not saved.
incomplete_kept : save_oidc_provider incomplete 7 sample_configuration ≡ sample_configuration
unfolding save_oidc_provider
incomplete_kept = refl

listed_servers : listed (codes "1.1.1.1, , 9.9.9.9 ") ≡ codes "1.1.1.1" ∷ (codes "9.9.9.9" ∷ [])
unfolding listed
listed_servers = refl

get_provider_config-save_oidc_provider_example :
    get_provider_config (codes "idp") (some (save_oidc_provider new_idp 7 sample_configuration))
    ≡ some sample_provider
unfolding get_provider_config
get_provider_config-save_oidc_provider_example =
    get_provider_config-save_oidc_provider new_idp 7 (codes "idp") sample_configuration refl

abbrev removed : Text
removed = codes "idp"

-- The settings without the provider, and what its deletion leaves of the registry.
abbrev deleted : Configuration × Registry plain_oauth
unfolding delete_oidc_provider
deleted = delete_oidc_provider plain_oauth removed 7 sample_configuration empty_registry

delete_oidc_provider_lem_example :
    ((k : Text)
      → get_provider_config k (some deleted.0)
        ≡ (if eqb removed k then none else get_provider_config k (some sample_configuration)))
    × (deleted.1.registered ≡ (λ k. if eqb removed k then none else empty_registry.registered k))
    × (plain_oauth.registry deleted.1.oauth
        ≡ (λ k. if eqb removed k then none else plain_oauth.registry empty_registry.oauth k))
    × (plain_oauth.clients deleted.1.oauth
        ≡ (λ k. if eqb removed k then none else plain_oauth.clients empty_registry.oauth k))
    × ((get_client plain_oauth removed (some deleted.0) deleted.1).0 ≡ none)
    × IsCurrent plain_oauth deleted.1
unfolding deleted
delete_oidc_provider_lem_example =
    delete_oidc_provider_lem plain_oauth removed 7 sample_configuration empty_registry
      empty-IsCurrent
