-- ===== src/Auth/Providers.antt =====
-- The registry of the identity providers, wiregui/auth/oidc.py, over the library authlib.
use wiregui.Base.{
  ◌≡◌, Bool, false, Option, none, some, List, [], ◌∷◌, Text, codes, eqb, truthy, text_or_empty,
  if◌then◌else◌,
}
use wiregui.Models.{Provider, Configuration}

-- What a client of authlib is built from.
pub record ClientConfig : Type 0 where
  pub client_id : Option Text
  pub client_secret : Option Text
  pub server_metadata_url : Option Text
  pub scope : Text

abbrev pub Slots : Type 0
Slots = Text → Option ClientConfig

abbrev pub update_slot : Slots → Text → Option ClientConfig → Slots
update_slot v k o j = if eqb k j then o else v j

abbrev pub kept_or : Option ClientConfig → ClientConfig → ClientConfig
kept_or none c = c
kept_or (some kept) c = kept

-- `OAuth` of authlib: the configurations that were registered, and the clients that it has built
-- and keeps.
pub record Oauth : Type 1 where
  pub State : Type 0
  pub registry : State → Slots
  pub clients : State → Slots
  pub register : Text → ClientConfig → State → State
  pub create_client : Text → State → Option ClientConfig × State
  -- `_clients.pop` and `_registry.pop`
  pub pop_client : Text → State → State
  pub pop_registry : Text → State → State
  -- `json.dumps` of the four entries, and `sha256` of it.
  pub digest : Option Text → Option Text → Option Text → Option Text → Text
  -- `register` ends in `create_client`, which builds a client and keeps it, unless one is kept.
  pub register_law :
      (k : Text) (c : ClientConfig) (s : State)
      → (registry (register k c s) ≡ update_slot (registry s) k (some c))
        × (clients (register k c s) ≡ update_slot (clients s) k (some (kept_or (clients s k) c)))
  pub pop_client_law :
      (k : Text) (s : State)
      → (registry (pop_client k s) ≡ registry s)
        × (clients (pop_client k s) ≡ update_slot (clients s) k none)
  pub pop_registry_law :
      (k : Text) (s : State)
      → (registry (pop_registry k s) ≡ update_slot (registry s) k none)
        × (clients (pop_registry k s) ≡ clients s)
  -- A client that is kept is given again, whatever is registered by then.
  pub kept_law :
      (k : Text) (c : ClientConfig) (s : State)
      → clients s k ≡ some c
      → create_client k s ≡ (some c, s)
  pub built_law :
      (k : Text) (s : State)
      → clients s k ≡ none
      → (s' : State) × (create_client k s ≡ (registry s k, s'))
        × (registry s' ≡ registry s)
        × (clients s' ≡ update_slot (clients s) k (registry s k))
  -- No two sets of entries have the same digest.
  pub digest_law :
      (a b c d a' b' c' d' : Option Text)
      → digest a b c d ≡ digest a' b' c' d'
      → (a ≡ a') × (b ≡ b') × (c ≡ c') × (d ≡ d')

-- `provider.get("scope", "openid email profile")`. A scope that is null, which the settings page
-- does not write and a file of providers could, is not modelled.
abbrev pub scope_of : Option Text → Text
scope_of none = codes "openid email profile"
scope_of (some scope) = scope

abbrev pub client_config : Provider → ClientConfig
client_config q = record {
  client_id = q.client_id;
  client_secret = q.client_secret;
  server_metadata_url = q.discovery_document_uri;
  scope = scope_of q.scope;
}

abbrev pub has_id : Text → Option Text → Bool
has_id provider_id none = false
has_id provider_id (some id) = eqb id provider_id

unfoldable pub find_provider : Text → List Provider → Option Provider
find_provider provider_id [] = none
find_provider provider_id (q ∷ qs) =
    let rest = find_provider provider_id qs in if has_id provider_id q.id then some q else rest

-- `load_providers`
unfoldable pub load_providers : Option Configuration → List Provider
load_providers none = []
load_providers (some config) = config.openid_connect_providers

unfoldable pub get_provider_config : Text → Option Configuration → Option Provider
unfolding find_provider load_providers
get_provider_config provider_id config = find_provider provider_id (load_providers config)

module _ (o : Oauth) where
  -- `oauth` and `_registered`
  pub record Registry : Type 0 where
    pub oauth : o.State
    pub registered : Text → Option Text

  -- `_fingerprint`
  abbrev pub fingerprint : Provider → Text
  fingerprint q = o.digest q.client_id q.client_secret q.discovery_document_uri q.scope

  abbrev pub is_fingerprint : Text → Option Text → Bool
  is_fingerprint f none = false
  is_fingerprint f (some g) = eqb g f

  abbrev pub set_registered : Text → Option Text → Registry → Registry
  set_registered k f r = record r { registered = (λ j. if eqb k j then f else r.registered j) }

  abbrev pub register_as : Text → Provider → Registry → Registry
  register_as k q r =
      if is_fingerprint (fingerprint q) (r.registered k)
      then r
      else set_registered k (some (fingerprint q))
          (record r { oauth = o.register k (client_config q) (o.pop_client k r.oauth) })

  unfoldable pub register_provider : Provider → Registry → Registry
  register_provider q r = if truthy q.id then register_as (text_or_empty q.id) q r else r

  unfoldable pub unregister_provider : Text → Registry → Registry
  unregister_provider k r =
      set_registered k none (record r { oauth = o.pop_client k (o.pop_registry k r.oauth) })

  -- `register_providers`
  unfoldable pub register_providers : List Provider → Registry → Registry
  unfolding register_provider
  register_providers [] r = r
  register_providers (q ∷ qs) r = register_providers qs (register_provider q r)

  abbrev pub client_from : Text → Registry → Option ClientConfig × Registry
  client_from k r = let (client, s) = o.create_client k r.oauth in (client, record r { oauth = s })

  abbrev pub client_for : Text → Option Provider → Registry → Option ClientConfig × Registry
  client_for k none r = (none, r)
  client_for k (some q) r = client_from k (register_provider q r)

  -- `get_client`; `none` is its `ValueError`.
  unfoldable pub get_client :
      Text → Option Configuration → Registry → Option ClientConfig × Registry
  unfolding get_provider_config register_provider
  get_client k config r = client_for k (get_provider_config k config) r
