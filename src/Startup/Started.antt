-- ===== src/Startup/Started.antt =====
-- What a first start of wiregui/main.py leaves of the database, the clients and the host.
use wiregui.Base.{◌≡◌, false, some, List, Text, All, has, done}
use wiregui.Settings.{Settings}
use wiregui.Database.{Database, order_rules}
use wiregui.Nft.{Nftables}
use wiregui.Host.{Host}
use wiregui.Firewall.{
  Entry, chain_rules, forward_jumps, list_user_chains, setup_base_tables, setup_masquerade,
}
use wiregui.Firewall.Rebuild.{Accepted}
use wiregui.Firewall.Started.{no_chains, MasqueradeAccepted}
use wiregui.Wireguard.{PeerInfo, get_peers}
use wiregui.Events.{World}
use wiregui.Reconcile.{all_entries}
use wiregui.Reconcile.Converge.{IsReconcilable}

module _ (settings : Settings) (n : Nftables) (h : Host settings.wg_interface) where
  abbrev entries : Database → List Entry
  entries db = all_entries db.devices (order_rules db.rules)

  -- What a first start relies on, with `db` the database as seeded, `s` the interface as
  -- configured, and `f` the ruleset with its base chains: there was no chain before, the listing
  -- names no user chain, and the tools can read what is sent and list the peers that are there.
  pub record IsStartable (db : Database) (w : World settings n h) (s : h.State) (f : n.Ruleset)
      (current : List PeerInfo) : Type 0 where
    pub fresh : n.chain w.firewall ≡ no_chains
    pub based : setup_base_tables n w.firewall ≡ done f
    pub unlisted :
        (c : Text) → has c (list_user_chains (n.list_table (setup_masquerade n settings f))) ≡ false
    pub masquerade_accepted : MasqueradeAccepted n settings
    pub rules_accepted : All (λ e. Accepted n (chain_rules e)) (entries db)
    pub jumps_accepted : Accepted n (forward_jumps (entries db))
    pub dumped : get_peers settings h s ≡ some current
    pub reconcilable : IsReconcilable settings n h db current s
