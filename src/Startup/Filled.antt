-- ===== src/Startup/Filled.antt =====
-- The row of the settings after `ensure_server_keypair` and `seed_idp_providers` of
-- wiregui/auth/seed.py.
use wiregui.Base.{
  ℕ, ◌≡◌, refl, sym, ap, ◌∙◌, false, ◌&&◌, Option, none, some, List, [], ◌∷◌, Text, truthy,
  if◌then◌else◌, subst, Bool-cases, inl, inr, none-ne-some, some-eq, length, ◌==◌, arith,
}
use wiregui.Models.{Provider, Configuration}
use wiregui.Auth.{
  find_provider, upsert_providers, upsert_into, upsert_given, by_id_from, put_providers, stored,
  row_or, with_keys, ensure_server_keypair, seed_idp_providers,
}
use wiregui.Auth.Seeded.{last_provider, or_before, find_provider-upsert_incoming}

-- A provider that the file names is the one that is found.
abbrev pub PrefersFile : List Provider → List Provider → Type 0
PrefersFile incoming found =
    (x : ℕ) (k : Text)
    → find_provider (x ∷ k) found
      ≡ or_before (last_provider (x ∷ k) incoming) (find_provider (x ∷ k) found)

or_before-or_before : (a b : Option Provider) → or_before a b ≡ or_before a (or_before a b)
or_before-or_before none b = refl
or_before-or_before (some q) b = refl

upsert_into-PrefersFile :
    (o : Option (List Provider)) (incoming found : List Provider)
    → upsert_into o incoming ≡ some found
    → PrefersFile incoming found
upsert_into-PrefersFile none incoming found h x k = absurd (none-ne-some h)
upsert_into-PrefersFile (some before) incoming found h x k =
    subst
      (λ f.
        find_provider (x ∷ k) f
        ≡ or_before (last_provider (x ∷ k) incoming) (find_provider (x ∷ k) f))
      (some-eq h)
      (let e = find_provider-upsert_incoming (x ∷ k) before incoming refl in
        e
        ∙ or_before-or_before (last_provider (x ∷ k) incoming) (find_provider (x ∷ k) before)
        ∙ ap (or_before (last_provider (x ∷ k) incoming)) (sym e))

upsert_given-PrefersFile :
    (existing incoming found : List Provider)
    → upsert_given existing incoming ≡ some found
    → PrefersFile incoming found
unfolding upsert_providers
upsert_given-PrefersFile existing [] found h x k = refl
upsert_given-PrefersFile existing (q ∷ qs) found h x k =
    upsert_into-PrefersFile (by_id_from [] existing) (q ∷ qs) found h x k

stored_lem :
    (a b : Option (List Provider)) (c : Configuration) (config : Option Configuration)
    → stored (put_providers a b c) ≡ some config
    → (oidc saml : List Provider) × (a ≡ some oidc)
      × (b ≡ some saml)
      × (config
          ≡ some (record c { openid_connect_providers = oidc; saml_identity_providers = saml }))
stored_lem none b c config h = absurd (none-ne-some h)
stored_lem (some oidc) none c config h = absurd (none-ne-some h)
stored_lem (some oidc) (some saml) c config h = (oidc, saml, refl, refl, sym (some-eq h))

-- What the row of the settings is after the providers of the file have been put into it.
pub record IsFilled (oidc saml : List Provider) (c : Configuration) (config : Option Configuration)
    : Type 0 where
  pub filled : Configuration
  pub there : config ≡ some filled
  pub same_public : filled.server_public_key ≡ c.server_public_key
  pub same_private : filled.server_private_key ≡ c.server_private_key
  pub oidc_first : PrefersFile oidc filled.openid_connect_providers
  pub saml_first : PrefersFile saml filled.saml_identity_providers

stored-IsFilled :
    (oidc saml : List Provider) (c : Configuration) (config : Option Configuration)
    → stored (
        put_providers
          (upsert_given c.openid_connect_providers oidc)
          (upsert_given c.saml_identity_providers saml)
          c)
      ≡ some config
    → IsFilled oidc saml c config
stored-IsFilled oidc saml c config h =
    let (a, b, first, second, is) =
      stored_lem (upsert_given c.openid_connect_providers oidc)
        (upsert_given c.saml_identity_providers saml) c config h in
    record {
      filled = record c { openid_connect_providers = a; saml_identity_providers = b };
      there = is;
      same_public = refl;
      same_private = refl;
      oidc_first = upsert_given-PrefersFile c.openid_connect_providers oidc a first;
      saml_first = upsert_given-PrefersFile c.saml_identity_providers saml b second;
    }

pub not_empty {ℓ} : {A : Type ℓ} (q : A) (qs : List A) → (length (q ∷ qs) == 0) ≡ false
not_empty q qs = ground arith

abbrev given_both : List Provider → List Provider → Configuration → Option (Option Configuration)
unfolding upsert_providers
given_both oidc saml c = stored (
    put_providers (upsert_given c.openid_connect_providers oidc)
      (upsert_given c.saml_identity_providers saml) c)

pub seed_idp_providers-IsFilled :
    (fresh : Configuration) (oidc saml : List Provider) (c : Configuration)
    (config : Option Configuration)
    → seed_idp_providers fresh oidc saml (some c) ≡ some config
    → IsFilled oidc saml c config
unfolding seed_idp_providers
seed_idp_providers-IsFilled fresh [] [] c config h = record {
  filled = c;
  there = sym (some-eq h);
  same_public = refl;
  same_private = refl;
  oidc_first = λ x k. refl;
  saml_first = λ x k. refl;
}
seed_idp_providers-IsFilled fresh [] (q ∷ qs) c config h =
    stored-IsFilled [] (q ∷ qs) c config
      (ap (λ b. if b then some (some c) else given_both [] (q ∷ qs) c) (sym (not_empty q qs)) ∙ h)
seed_idp_providers-IsFilled fresh (q ∷ qs) saml c config h =
    stored-IsFilled (q ∷ qs) saml c config (
      ap (λ b. if b && (length saml == 0) then some (some c) else given_both (q ∷ qs) saml c)
        (sym (not_empty q qs))
      ∙ h)

pub ensure_server_keypair_lem :
    (fresh : Configuration) (private_key public_key : Text) (config : Option Configuration)
    → ensure_server_keypair fresh private_key public_key config
      ≡ some (with_keys private_key public_key (row_or fresh config))
unfolding ensure_server_keypair
ensure_server_keypair_lem fresh private_key public_key none = refl
ensure_server_keypair_lem fresh private_key public_key (some c) = refl

-- The pair of keys that was there if both were, else the pair that is drawn.
abbrev pub key_pair : Text → Text → Configuration → Option Text × Option Text
key_pair private_key public_key c =
    if truthy c.server_public_key && truthy c.server_private_key
    then (c.server_private_key, c.server_public_key)
    else (some private_key, some public_key)

pub with_keys-key_pair :
    (private_key public_key : Text) (c : Configuration)
    → (
      (with_keys private_key public_key c).server_private_key,
      (with_keys private_key public_key c).server_public_key,
    )
      ≡ key_pair private_key public_key c
with_keys-key_pair private_key public_key c =
    elim (Bool-cases (truthy c.server_public_key && truthy c.server_private_key)) [
      | inl both ↦ rw both refl
      | inr missing ↦ rw missing refl
    ]
