-- ===== src/Ordering/Switched.antt =====
-- What the two policy switches of wiregui/pages/admin/rules.py leave of the database and of the
-- ruleset.
use wiregui.Base.{◌≡◌, refl, sym, ap, ◌∙◌, Bool, true, some, List, [], ◌∷◌, Text, ℕ, has, done}
use wiregui.Settings.{Settings}
use wiregui.Models.{Configuration}
use wiregui.Database.{Database}
use wiregui.Nft.{Nftables, update}
use wiregui.Host.{Host}
use wiregui.Firewall.{
  Entry, rebuild_all_rules, peer_to_peer, lan_to_peers, peer_to_peer_rules, lan_to_peers_rules,
}
use wiregui.Firewall.Rebuild.{Accepted}
use wiregui.Firewall.Reconciled.{IsReady}
use wiregui.Firewall.Policies.{IsUnreached, apply_lan_to_peers_policy-apply_peer_to_peer_policy}
use wiregui.Events.{World}
use wiregui.Ordering.Editor.{
  with_peer_to_peer, with_lan_to_peers, toggle_peer_to_peer, toggle_lan_to_peers,
}

module _ (settings : Settings) (n : Nftables) (h : Host settings.wg_interface) where
  open n use {Ruleset, chain}

  abbrev both : Bool → ℕ → Bool → ℕ → Database × World settings n h → Database × World settings n h
  both peers t lan t' r =
      toggle_lan_to_peers settings n h lan t' (toggle_peer_to_peer settings n h peers t r)

  -- From the ruleset that a rebuild left, while there is a configuration row and the tool can read
  -- the rules of the policies: once both switches have been set, the row holds both settings and
  -- the later time, the chain of each policy holds the two rules of its setting, every other chain
  -- is as the rebuild left it, and the host is untouched. Yet no rule of any chain jumps to the
  -- chain of a policy, whatever the settings.
  pub toggle_lan_to_peers-toggle_peer_to_peer :
      (peers lan : Bool) (t t' : ℕ) (es : List Entry) (s s' : Ruleset) (db : Database)
      (c : Configuration) (w : World settings n h)
      → IsReady n es s
      → rebuild_all_rules n es s ≡ done s'
      → w.firewall ≡ s'
      → db.configuration ≡ some c
      → Accepted n (peer_to_peer_rules settings peers)
      → Accepted n (lan_to_peers_rules settings lan)
      → ((both peers t lan t' (db, w)).0 ≡ record db {
        configuration =
            some
              (record c { allow_peer_to_peer = peers; allow_lan_to_peers = lan; updated_at = t' });
      })
        × ((both peers t lan t' (db, w)).1.host ≡ w.host)
        × (chain (both peers t lan t' (db, w)).1.firewall
            ≡ update
                (update (chain s') peer_to_peer (some (peer_to_peer_rules settings peers)))
                lan_to_peers
                (some (lan_to_peers_rules settings lan)))
        × ((d : Text)
            → has d (peer_to_peer ∷ (lan_to_peers ∷ [])) ≡ true
            → IsUnreached (chain (both peers t lan t' (db, w)).1.firewall) d)
  unfolding toggle_peer_to_peer toggle_lan_to_peers
  toggle_lan_to_peers-toggle_peer_to_peer peers lan t t' es s s' db c w ready ran same there ok
        ok' =
      let (view, free) =
        apply_lan_to_peers_policy-apply_peer_to_peer_policy n settings es s w.firewall peers lan
          ready (ran ∙ ap done (sym same)) ok ok' in
      (
        ap
            (λ o. record db {
              configuration = with_lan_to_peers lan t' (with_peer_to_peer peers t o);
            })
            there,
        refl,
        view
            ∙ ap
                (λ q.
                  update (update (chain q) peer_to_peer (some (peer_to_peer_rules settings peers)))
                    lan_to_peers (some (lan_to_peers_rules settings lan)))
                same,
        free,
      )
