-- ===== src/Startup.antt =====
-- `startup` of wiregui/main.py. The loops that it starts, the logging and the creation of the
-- tables of the database are not modelled.
pub mod Registered
pub mod Filled
pub mod Seeding
pub mod Started
use wiregui.Base.{ℕ, Option, none, some, List, [], ◌∷◌, Text, if◌then◌else◌, Outcome, done, failed}
use wiregui.Settings.{Settings}
use wiregui.Models.{Provider, Configuration}
use wiregui.Database.{Database}
use wiregui.Nft.{Nftables}
use wiregui.Host.{Host}
use wiregui.Firewall.{setup_base_tables, setup_masquerade}
use wiregui.Wireguard.{ensure_interface, configure_interface}
use wiregui.Events.{World}
use wiregui.Reconcile.{reconcile}
use wiregui.Auth.{
  Primitives, Oauth, Registry, seed_admin, ensure_server_keypair, seed_idp_providers,
  load_providers, register_providers,
}

-- What is drawn at the first start, the row of the settings with its defaults, and the lists of
-- the file of providers.
pub record Seeds : Type 0 where
  pub admin_id : Text
  pub now : ℕ
  pub salt : Text
  pub generated : Text
  pub fresh : Configuration
  pub private_key : Text
  pub public_key : Text
  pub oidc : List Provider
  pub saml : List Provider

abbrev pub with_configuration : Option Database → Option (Option Configuration) → Option Database
with_configuration none config = none
with_configuration (some db) none = none
with_configuration (some db) (some config) = some (record db { configuration = config })

module _ (settings : Settings) (p : Primitives) where
  -- `seed_admin`, `ensure_server_keypair` and `seed_idp_providers`; `none` is an error.
  unfoldable pub seed_database : Seeds → Database → Option Database
  unfolding seed_admin ensure_server_keypair seed_idp_providers
  seed_database d db =
      let config = ensure_server_keypair d.fresh d.private_key d.public_key db.configuration in
      with_configuration (seed_admin settings p d.admin_id d.now d.salt d.generated db)
        (seed_idp_providers d.fresh d.oidc d.saml config)

module _ (settings : Settings) (n : Nftables) (h : Host settings.wg_interface) where
  -- The chains and then what the database asks for; `none` is an error, which ends the program.
  unfoldable pub start_firewall : Database → h.State → n.Ruleset → Option (World settings n h)
  unfolding setup_base_tables setup_masquerade reconcile
  start_firewall db s f = elim (setup_base_tables n f) [
    | failed e ↦ none
    | done f' ↦
        reconcile settings n h db (record { host = s; firewall = setup_masquerade n settings f' })
  ]

  -- The part of `startup` for WireGuard.
  unfoldable pub start_wireguard : Database → World settings n h → Option (World settings n h)
  unfolding ensure_interface configure_interface start_firewall
  start_wireguard db w = elim (ensure_interface settings h w.host) [
    | failed e ↦ none
    | done s1 ↦ elim (configure_interface settings h db.configuration s1) [
      | failed e ↦ none
      | done s2 ↦ start_firewall db s2 w.firewall
    ]
  ]

  module _ (p : Primitives) (o : Oauth) where
    abbrev pub Program : Type 0
    Program = Database × Registry o × World settings n h

    abbrev pub started : Database → Registry o → Option (World settings n h) → Option Program
    started db r none = none
    started db r (some w) = some (db, r, w)

    abbrev pub start_from : Registry o → World settings n h → Option Database → Option Program
    unfolding register_providers load_providers start_wireguard
    start_from r w none = none
    start_from r w (some db) =
        started db (register_providers o (load_providers db.configuration) r)
          (if settings.wg_enabled then start_wireguard db w else some w)

    -- `startup`
    unfoldable pub startup : Seeds → Program → Option Program
    unfolding seed_database start_from
    startup d (db, r, w) = start_from r w (seed_database settings p d db)
