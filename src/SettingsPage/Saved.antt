-- ===== src/SettingsPage/Saved.antt =====
-- What the providers of the database, and the clients, are after the settings page has saved or
-- deleted one.
use wiregui.Base.{
  ℕ, ◌≡◌, refl, sym, ap, ◌∙◌, true, false, Option, none, some, List, [], ◌∷◌, ◌++◌, append-nil,
  Text, strip, eqb, eqb-eq, eqb_refl, subst, if◌then◌else◌, arith, Bool-cases, inl, inr,
}
use wiregui.Models.{Provider, Configuration}
use wiregui.Auth.{
  has_id, find_provider, load_providers, get_provider_config, get_client, Oauth, Registry,
}
use wiregui.Auth.Seeded.{has_id-eq}
use wiregui.Auth.Current.{IsCurrent, unregister_provider_lem, unregister_provider-IsCurrent}
use wiregui.SettingsPage.{
  OidcForm, is_complete, provider_of, without_provider, save_oidc_provider, delete_oidc_provider,
  SamlForm, is_complete_saml, saml_provider_of, save_saml_provider,
}

-- A provider that is not of an id stays first, whatever is found for that id.
kept_first :
    (k id : Text) (q : Provider) (o f : Option Provider)
    → has_id id q.id ≡ false
    → (if has_id k q.id then some q else if eqb id k then o else f)
      ≡ (if eqb id k then o else if has_id k q.id then some q else f)
kept_first k id q o f other = elim (Bool-cases (eqb id k)) [
  | inl same ↦ rw (same, subst (λ t. has_id t q.id ≡ false) (eqb-eq id k same) other) refl
  | inr apart ↦ rw apart refl
]

-- Replacing the providers of an id by those of a list.
find_provider-without :
    (k id : Text) (qs tail : List Provider) (o : Option Provider)
    → find_provider k tail ≡ (if eqb id k then o else none)
    → find_provider k (without_provider id qs ++ tail)
      ≡ (if eqb id k then o else find_provider k qs)
unfolding find_provider
find_provider-without k id [] tail o h = h
find_provider-without k id (q ∷ qs) tail o h = elim (Bool-cases (has_id id q.id)) [
  | inl same ↦
      rw same (rw (has_id-eq id q.id same) (find_provider-without k id qs tail o h ∙ ground arith))
  | inr other ↦ rw other (
      ap (λ f. if has_id k q.id then some q else f) (find_provider-without k id qs tail o h)
      ∙ kept_first k id q o (find_provider k qs) other)
]

-- Once a complete form is saved, its provider is found under its id, and under any other id what
-- was found before.
pub get_provider_config-save_oidc_provider :
    (form : OidcForm) (now : ℕ) (k : Text) (c : Configuration)
    → is_complete form ≡ true
    → get_provider_config k (some (save_oidc_provider form now c)) ≡ (
        if eqb (strip form.oidc_id) k
        then some (provider_of form)
        else get_provider_config k (some c))
unfolding get_provider_config load_providers save_oidc_provider find_provider provider_of
get_provider_config-save_oidc_provider form now k c complete = rw complete (
    find_provider-without k (strip form.oidc_id) c.openid_connect_providers (provider_of form ∷ [])
      (some (provider_of form)) refl)

-- The same of SAML, as its callback finds the provider.
find_provider-save_saml_provider :
    (url : Text) (form : SamlForm) (now : ℕ) (k : Text) (c : Configuration)
    → is_complete_saml form ≡ true
    → find_provider k (save_saml_provider url form now c).saml_identity_providers ≡ (
        if eqb (strip form.saml_id) k
        then some (saml_provider_of url form)
        else find_provider k c.saml_identity_providers)
unfolding save_saml_provider find_provider saml_provider_of
find_provider-save_saml_provider url form now k c complete = rw complete (
    find_provider-without k (strip form.saml_id) c.saml_identity_providers
      (saml_provider_of url form ∷ []) (some (saml_provider_of url form)) refl)

module _ (o : Oauth) (id : Text) (now : ℕ) (c : Configuration) (r : Registry o) where
  get_provider_config-delete_oidc_provider :
      (k : Text)
      → get_provider_config k (some (delete_oidc_provider o id now c r).0)
        ≡ (if eqb id k then none else get_provider_config k (some c))
  unfolding get_provider_config load_providers delete_oidc_provider find_provider
  get_provider_config-delete_oidc_provider k =
      ap (find_provider k) (sym (append-nil (without_provider id c.openid_connect_providers)))
      ∙ find_provider-without k id c.openid_connect_providers [] none (ground arith)

  get_client-missing :
      (k : Text) (config : Option Configuration)
      → get_provider_config k config ≡ none
      → (get_client o k config r).0 ≡ none
  unfolding get_client get_provider_config
  get_client-missing k config h = rw h refl

-- After a provider is deleted in the settings, it is found no more, it is out of the registry, of
-- the clients that are kept and of the fingerprints, and `get_client` gives no client of it. What
-- is found and kept of the other providers is as before, and a registry that was current still is.
pub delete_oidc_provider_lem :
    (o : Oauth) (id : Text) (now : ℕ) (c : Configuration) (r : Registry o)
    → IsCurrent o r
    → ((k : Text)
        → get_provider_config k (some (delete_oidc_provider o id now c r).0)
          ≡ (if eqb id k then none else get_provider_config k (some c)))
      × ((delete_oidc_provider o id now c r).1.registered
          ≡ (λ k. if eqb id k then none else r.registered k))
      × (o.registry (delete_oidc_provider o id now c r).1.oauth
          ≡ (λ k. if eqb id k then none else o.registry r.oauth k))
      × (o.clients (delete_oidc_provider o id now c r).1.oauth
          ≡ (λ k. if eqb id k then none else o.clients r.oauth k))
      × ((get_client o id
            (some (delete_oidc_provider o id now c r).0)
            (delete_oidc_provider o id now c r).1).0
          ≡ none)
      × IsCurrent o (delete_oidc_provider o id now c r).1
unfolding delete_oidc_provider
delete_oidc_provider_lem o id now c r v =
    let (prints, registry, clients) = unregister_provider_lem o id r in
    (
      get_provider_config-delete_oidc_provider o id now c r,
      prints,
      registry,
      clients,
      get_client-missing o id now c _ id _
          (get_provider_config-delete_oidc_provider o id now c r id ∙ rw (eqb_refl id) refl),
      unregister_provider-IsCurrent o id r v,
    )
