-- ===== src/Auth/Seed.antt =====
-- wiregui/auth/seed.py: the administrator, the keys of the server, and the providers of a file.
use wiregui.Base.{
  ℕ, ◌&&◌, Option, none, some, List, [], ◌∷◌, Text, codes, truthy, text_or_empty, length, ◌==◌,
  if◌then◌else◌,
}
use wiregui.Settings.{Settings}
use wiregui.Models.{Provider, Configuration}
use wiregui.Database.{Database}
use wiregui.Auth.Libraries.{Primitives}
use wiregui.Auth.Federated.{new_user}
use wiregui.Auth.Providers.{has_id}

-- `by_id[pid] = p` of a dictionary in the order in which its keys came.
abbrev pub put_provider : Text → Provider → List Provider → List Provider
put_provider id q [] = q ∷ []
put_provider id q (r ∷ rs) =
    let rest = put_provider id q rs in if has_id id r.id then q ∷ rs else r ∷ rest

-- `{p["id"]: p for p in existing}`; `none` is the `KeyError` of an entry without an id.
abbrev pub by_id_from : List Provider → List Provider → Option (List Provider)
by_id_from found [] = some found
by_id_from found (q ∷ qs) = elim (q.id) [
  | none ↦ none
  | some id ↦ by_id_from (put_provider id q found) qs
]

abbrev pub upsert_one : Provider → List Provider → List Provider
upsert_one q found = if truthy q.id then put_provider (text_or_empty q.id) q found else found

unfoldable pub upsert_incoming : List Provider → List Provider → List Provider
upsert_incoming found [] = found
upsert_incoming found (q ∷ qs) = upsert_incoming (upsert_one q found) qs

abbrev pub upsert_into : Option (List Provider) → List Provider → Option (List Provider)
upsert_into none incoming = none
upsert_into (some found) incoming = some (upsert_incoming found incoming)

-- `_upsert_providers`
unfoldable pub upsert_providers : List Provider → List Provider → Option (List Provider)
unfolding upsert_incoming
upsert_providers existing incoming = upsert_into (by_id_from [] existing) incoming

abbrev pub upsert_given : List Provider → List Provider → Option (List Provider)
upsert_given existing [] = some existing
upsert_given existing (q ∷ qs) = upsert_providers existing (q ∷ qs)

abbrev pub put_providers :
    Option (List Provider) → Option (List Provider) → Configuration → Option Configuration
put_providers none saml config = none
put_providers (some oidc) none config = none
put_providers (some oidc) (some saml) config =
    some (record config { openid_connect_providers = oidc; saml_identity_providers = saml })

abbrev pub row_or : Configuration → Option Configuration → Configuration
row_or fresh none = fresh
row_or fresh (some config) = config

abbrev pub stored : Option Configuration → Option (Option Configuration)
stored none = none
stored (some config) = some (some config)

-- `seed_idp_providers` once the file is read: the row that is there afterwards, if one is, or
-- `none` for a `KeyError`. `fresh` is the row with its defaults.
unfoldable pub seed_idp_providers :
    Configuration
    → List Provider
    → List Provider
    → Option Configuration
    → Option (Option Configuration)
unfolding upsert_providers
seed_idp_providers fresh oidc saml config =
    if (length oidc == 0) && (length saml == 0)
    then some config
    else stored (
        put_providers (upsert_given (row_or fresh config).openid_connect_providers oidc)
          (upsert_given (row_or fresh config).saml_identity_providers saml) (row_or fresh config))

-- `ensure_server_keypair`, with the pair of keys that is drawn.
abbrev pub with_keys : Text → Text → Configuration → Configuration
with_keys private_key public_key config =
    if truthy config.server_public_key && truthy config.server_private_key
    then config
    else record config {
      server_private_key = some private_key;
      server_public_key = some public_key;
    }

unfoldable pub ensure_server_keypair :
    Configuration → Text → Text → Option Configuration → Option Configuration
ensure_server_keypair fresh private_key public_key none =
    some (with_keys private_key public_key fresh)
ensure_server_keypair fresh private_key public_key (some config) =
    some (with_keys private_key public_key config)

module _ (settings : Settings) (p : Primitives) where
  abbrev pub password_or : Text → Text
  password_or generated =
      if truthy settings.admin_password then text_or_empty settings.admin_password else generated

  -- `seed_admin`, with what is drawn for the row, for the salt and for a password; `none` is the
  -- `ValueError` of a password that bcrypt does not take.
  unfoldable pub seed_admin : Text → ℕ → Text → Text → Database → Option Database
  unfolding new_user
  seed_admin id now salt generated db =
      if length db.users == 0
      then (if p.takes_password (password_or generated)
          then some (record db {
            users =
                record (new_user id now settings.admin_email) {
                  password_hash = some (p.hashpw (password_or generated) salt);
                  role = codes "admin";
                }
                ∷ [];
          })
          else none)
      else some db
