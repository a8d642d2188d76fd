-- ===== src/Startup/Seeding.antt =====
-- What the steps of wiregui/auth/seed.py leave of the database at a start.
use wiregui.Base.{
  ◌≡◌, refl, sym, ap, ◌∙◌, Bool, true, false, Option, none, some, List, [], ◌∷◌, Text, codes,
  eqb_refl, if◌then◌else◌, Bool-cases, inl, inr, none-ne-some, some-eq, length, ◌==◌,
}
use wiregui.Settings.{Settings}
use wiregui.Models.{User, Configuration}
use wiregui.Database.{Database, find}
use wiregui.Auth.{
  Primitives, row_or, with_keys, seed_idp_providers, password_or, seed_admin, new_user,
  authenticate_user,
}
use wiregui.Auth.Gate.{authenticate_user_iff}
use wiregui.Startup.{Seeds, with_configuration, seed_database}
use wiregui.Startup.Filled.{
  PrefersFile, not_empty, seed_idp_providers-IsFilled, ensure_server_keypair_lem, key_pair,
  with_keys-key_pair,
}

with_configuration_lem :
    (db' : Database) (o : Option Database) (config : Option (Option Configuration))
    → with_configuration o config ≡ some db'
    → (one : Database) × (o ≡ some one)
      × (config ≡ some db'.configuration)
      × (db' ≡ record one { configuration = db'.configuration })
with_configuration_lem db' none config h = absurd (none-ne-some h)
with_configuration_lem db' (some one) none h = absurd (none-ne-some h)
with_configuration_lem db' (some one) (some config) h =
    let same = some-eq h in
    (
      one,
      refl,
      ap (λ (r : Database). some r.configuration) same,
      sym same ∙ ap (λ (r : Database). record one { configuration = r.configuration }) same,
    )

module _ (settings : Settings) (p : Primitives) where
  -- The password of the administrator that is seeded.
  abbrev pub first_password : Seeds → Text
  first_password d = password_or settings p d.generated

  -- Where there was no user, the one user is an administrator who can sign in with that password.
  abbrev pub IsAdministered : Seeds → List User → Database → Type 0
  IsAdministered d [] db' =
      (u : User) × (db'.users ≡ u ∷ [])
      × (u.role ≡ codes "admin")
      × (authenticate_user settings p db' settings.admin_email (first_password d) ≡ some u)
  IsAdministered d (v ∷ vs) db' = db'.users ≡ v ∷ vs

  pub record IsSeeded (d : Seeds) (db db' : Database) : Type 0 where
    pub administered : IsAdministered d db.users db'
    pub config : Configuration
    pub configured : db'.configuration ≡ some config
    pub keyed :
        (config.server_private_key, config.server_public_key)
        ≡ key_pair d.private_key d.public_key (row_or d.fresh db.configuration)
    pub oidc_of_file : PrefersFile d.oidc config.openid_connect_providers
    pub saml_of_file : PrefersFile d.saml config.saml_identity_providers
    pub others_kept : db' ≡ record db { users = db'.users; configuration = db'.configuration }

  abbrev first_admin : Seeds → User
  unfolding new_user
  first_admin d = record (new_user d.admin_id d.now settings.admin_email) {
    password_hash = some (p.hashpw (first_password d) d.salt);
    role = codes "admin";
  }

  first_admin-IsAdministered :
      (d : Seeds) (db' : Database)
      → p.takes_password (first_password d) ≡ true
      → db'.users ≡ first_admin d ∷ []
      → IsAdministered d [] db'
  unfolding find first_admin
  first_admin-IsAdministered d db' taken users = (
    first_admin d,
    users,
    refl,
    (authenticate_user_iff settings p db' settings.admin_email (first_password d) (first_admin d)).1
        (
          p.hashpw (first_password d) d.salt,
          ap (find (λ r. r.email) settings.admin_email) users
              ∙ rw (eqb_refl settings.admin_email) refl,
          refl,
          p.checkpw_law (first_password d) d.salt taken,
          refl,
        ),
  )

  abbrev with_first : Seeds → Database → Bool → Option Database
  with_first d db true = some (record db { users = first_admin d ∷ [] })
  with_first d db false = none

  with_first_lem :
      (d : Seeds) (db one db' : Database) (b : Bool)
      → p.takes_password (first_password d) ≡ b
      → with_first d db b ≡ some one
      → db'.users ≡ one.users
      → IsAdministered d [] db' × (one ≡ record db { users = one.users })
  with_first_lem d db one db' false taken h users = absurd (none-ne-some h)
  with_first_lem d db one db' true taken h users = (
    first_admin-IsAdministered d db' taken
        (users ∙ ap (λ (r : Database). r.users) (sym (some-eq h))),
    sym (some-eq h) ∙ ap (λ (r : Database). record db { users = r.users }) (some-eq h),
  )

  abbrev seeded : Seeds → Database → Bool → Option Database
  seeded d db true =
      if p.takes_password (first_password d)
      then some (record db { users = first_admin d ∷ [] })
      else none
  seeded d db false = some db

  seeded-with_first :
      (d : Seeds) (db : Database)
      → seeded d db true ≡ with_first d db (p.takes_password (first_password d))
  seeded-with_first d db = elim (Bool-cases (p.takes_password (first_password d))) [
    | inl taken ↦ rw taken refl
    | inr long ↦ rw long refl
  ]

  seed_admin-seeded :
      (d : Seeds) (db : Database)
      → seed_admin settings p d.admin_id d.now d.salt d.generated db
        ≡ seeded d db (length db.users == 0)
  unfolding seed_admin
  seed_admin-seeded d db = elim (Bool-cases (length db.users == 0)) [
    | inl empty ↦ rw empty refl
    | inr there ↦ rw there refl
  ]

  seeded_lem :
      (d : Seeds) (users : List User) (db one db' : Database)
      → db.users ≡ users
      → seeded d db (length users == 0) ≡ some one
      → db'.users ≡ one.users
      → IsAdministered d users db' × (one ≡ record db { users = one.users })
  seeded_lem d [] db one db' empty h users =
      with_first_lem d db one db' (p.takes_password (first_password d)) refl
        (sym (seeded-with_first d db) ∙ h) users
  seeded_lem d (v ∷ vs) db one db' there h users =
      let same = some-eq (ap (seeded d db) (sym (not_empty v vs)) ∙ h) in
      (
        users ∙ ap (λ (r : Database). r.users) (sym same) ∙ there,
        sym same ∙ ap (λ (r : Database). record db { users = r.users }) same,
      )

  pub seed_database-IsSeeded :
      (d : Seeds) (db db' : Database) → seed_database settings p d db ≡ some db' → IsSeeded d db db'
  unfolding seed_database
  seed_database-IsSeeded d db db' h =
      let c = with_keys d.private_key d.public_key (row_or d.fresh db.configuration) in
      let (one, first, stored', same) =
        with_configuration_lem db' (seed_admin settings p d.admin_id d.now d.salt d.generated db) _
          h in
      let filled = seed_idp_providers-IsFilled d.fresh d.oidc d.saml c db'.configuration (
        ap (seed_idp_providers d.fresh d.oidc d.saml)
          (sym (ensure_server_keypair_lem d.fresh d.private_key d.public_key db.configuration))
        ∙ stored') in
      let users : db'.users ≡ one.users = ap (λ (r : Database). r.users) same in
      let (administered, others) =
        seeded_lem d db.users db one db' refl (sym (seed_admin-seeded d db) ∙ first) users in
      record {
        administered = administered;
        config = filled.filled;
        configured = filled.there;
        keyed =
            ap (λ k. (k, filled.filled.server_public_key)) filled.same_private
            ∙ ap (λ k. (c.server_private_key, k)) filled.same_public
            ∙ with_keys-key_pair d.private_key d.public_key (row_or d.fresh db.configuration);
        oidc_of_file = filled.oidc_first;
        saml_of_file = filled.saml_first;
        others_kept =
            same
            ∙ ap (λ (r : Database). record r { configuration = db'.configuration }) others
            ∙ ap (λ us. record db { users = us; configuration = db'.configuration }) (sym users);
      }
