-- ===== src/Examples/Chains.antt =====
-- Examples for the chains of the firewall.
use mathlib.Core.List.{Perm}
use wiregui.Base.{
  ◌≡◌, refl, subst, true, false, ◌&&◌, ◌||◌, none, some, List, [], ◌∷◌, map, filter, Text, codes,
  eqb, eqb-eq, has, starts_with, All, is_some, arith, if◌then◌else◌, Outcome, done, failed, done-eq,
  sym, ap, ◌∙◌, Bool-cases, inl, inr,
}
use wiregui.Firewall.Stable.{rebuild_all_rules-rebuild_all_rules}
use wiregui.Nft.{update, statement, View, RuleExpr, any_refers, rules_or_empty}
use wiregui.Nft.Table.{Table, table_nft}
use wiregui.Host.Memory.{memory_host}
use wiregui.Firewall.{
  peer_to_peer, lan_to_peers, peer_to_peer_rules, lan_to_peers_rules, Entry, FilterRule, forward,
  forward_jumps, chain_rules, user_chain_name, rebuild_all_rules, list_user_chains,
}
use wiregui.Firewall.Sorted.{InOrder}
use wiregui.Firewall.Ordered.{text_of}
use wiregui.Firewall.Rebuild.{Accepted}
use wiregui.Firewall.Reconciled.{
  IsReady, user_prefix, rebuilt_view, rebuild_all_rules_lem, user-ne-forward,
}
use wiregui.Database.{Database, owned_by}
use wiregui.Ordering.{toggle_peer_to_peer, toggle_lan_to_peers}
use wiregui.Ordering.Switched.{toggle_lan_to_peers-toggle_peer_to_peer}
use wiregui.Firewall.Policies.{IsUnreached}
use wiregui.Events.{World, filter_rule_of, user_entry, rebuild_user_chain}
use wiregui.Events.Isolation.{jumps_of, rebuild_user_chain_lem}
use wiregui.Examples.Samples.{sample_settings, sample_db, sample_configuration}

abbrev bob_chain : Text
bob_chain = codes "user_b"

-- The forward chain, and the chain of one user.
abbrev pub chains_before : Table
chains_before = record {
  names = forward ∷ (bob_chain ∷ []);
  view = λ c. if eqb forward c then some [] else if eqb bob_chain c then some [] else none;
}

pub all-Accepted : (es : List RuleExpr) → Accepted table_nft es
all-Accepted [] = tt
all-Accepted (e ∷ es) = (refl, all-Accepted es)

pub rules-All-Accepted : (es : List Entry) → All (λ e. Accepted table_nft (chain_rules e)) es
rules-All-Accepted [] = tt
rules-All-Accepted (e ∷ es) = (all-Accepted (chain_rules e), rules-All-Accepted es)

chains_listed :
    (c : Text)
    → has c (list_user_chains (table_nft.list_table chains_before))
      ≡ (starts_with user_prefix c && is_some (chains_before.view c))
unfolding list_user_chains
chains_listed c = elim (Bool-cases (eqb bob_chain c)) [
  | inl bob ↦
      subst
        (λ d.
          (eqb bob_chain d || false)
          ≡ (starts_with user_prefix d && is_some (chains_before.view d)))
        (eqb-eq bob_chain c bob) refl
  | inr other ↦ rw other (ground (arith, user-ne-forward c))
]

chains_free :
    (c d : Text)
    → eqb forward d ≡ false
    → any_refers c (rules_or_empty (chains_before.view d)) ≡ false
chains_free c d h =
    rw h (elim (Bool-cases (eqb bob_chain d)) [ inl bob ↦ rw bob refl | inr other ↦ rw other refl ])

pub chains-IsReady : (es : List Entry) → IsReady table_nft es chains_before
chains-IsReady es = record {
  forward_there = refl;
  listed = chains_listed;
  no_stray = chains_free;
  rules_accepted = rules-All-Accepted es;
  jumps_accepted = all-Accepted (forward_jumps es);
}

abbrev ann_entries : List Entry
unfolding user_entry
ann_entries = user_entry sample_db (codes "a") ∷ []

rebuild_all_rules_lem_example :
    (s' : Table) × (rebuild_all_rules table_nft ann_entries chains_before ≡ done s')
    × (s'.view ≡ rebuilt_view ann_entries chains_before.view)
rebuild_all_rules_lem_example =
    rebuild_all_rules_lem table_nft ann_entries chains_before (chains-IsReady ann_entries)

rebuild_user_chain_lem_example :
    (rs : List FilterRule) × InOrder rs
    × Perm rs (map filter_rule_of (filter (λ r. owned_by (codes "a") r.user_id) sample_db.rules))
    × ((c : Text)
        → (rebuild_user_chain sample_settings table_nft
              (memory_host (codes "wg0"))
              sample_db
              (codes "a")
              chains_before).view
            c
          ≡ (if eqb forward c
              then some (jumps_of sample_db (codes "a"))
              else if eqb (user_chain_name (codes "a")) c
              then some (map text_of rs)
              else if starts_with user_prefix c
              then none
              else chains_before.view c))
rebuild_user_chain_lem_example =
    rebuild_user_chain_lem sample_settings table_nft (memory_host (codes "wg0")) sample_db
      (codes "a") chains_before (chains-IsReady (user_entry sample_db (codes "a") ∷ []))

abbrev pub table_or : Table → Outcome Table → Table
table_or t (done t') = t'
table_or t (failed e) = t

-- What the rebuild leaves of the table.
abbrev chains_after : Table
unfolding rebuild_all_rules user_entry
chains_after = table_or chains_before (rebuild_all_rules table_nft ann_entries chains_before)

rebuilt : rebuild_all_rules table_nft ann_entries chains_before ≡ done chains_after
unfolding rebuild_all_rules user_entry user_chain_name chains_after
rebuilt = refl

after_view : chains_after.view ≡ rebuilt_view ann_entries chains_before.view
after_view =
    let (t, ran, view) =
      rebuild_all_rules_lem table_nft ann_entries chains_before (chains-IsReady ann_entries) in
    ap (λ (r : Table). r.view) (done-eq (sym rebuilt ∙ ran)) ∙ view

ann_chain_listed : list_user_chains (table_nft.list_table chains_after) ≡ codes "user_a" ∷ []
unfolding list_user_chains rebuild_all_rules user_entry user_chain_name chains_after
ann_chain_listed = refl

ann_chain_only :
    (c : Text)
    → has c (codes "user_a" ∷ [])
      ≡ (starts_with user_prefix c && is_some (rebuilt_view ann_entries chains_before.view c))
unfolding user_entry user_chain_name
ann_chain_only c = elim (Bool-cases (eqb (codes "user_a") c)) [
  | inl ann ↦
      subst
        (λ d.
          (eqb (codes "user_a") d || false)
          ≡ (starts_with user_prefix d && is_some (rebuilt_view ann_entries chains_before.view d)))
        (eqb-eq (codes "user_a") c ann) refl
  | inr other ↦ rw other (ground (arith, user-ne-forward c))
]

after_listed :
    (c : Text)
    → has c (list_user_chains (table_nft.list_table chains_after))
      ≡ (starts_with user_prefix c && is_some (chains_after.view c))
after_listed c =
    ap (λ cs. has c cs) ann_chain_listed
    ∙ ann_chain_only c
    ∙ ap (λ (v : View). starts_with user_prefix c && is_some (v c)) (sym after_view)

abbrev bob_entries : List Entry
unfolding user_entry
bob_entries = user_entry sample_db (codes "b") ∷ []

rebuild_all_rules-rebuild_all_rules_example :
    (s'' : Table) × (rebuild_all_rules table_nft bob_entries chains_after ≡ done s'')
    × (s''.view ≡ rebuilt_view bob_entries chains_before.view)
rebuild_all_rules-rebuild_all_rules_example =
    rebuild_all_rules-rebuild_all_rules table_nft ann_entries bob_entries chains_before chains_after
      (chains-IsReady ann_entries) rebuilt after_listed (rules-All-Accepted bob_entries)
      (all-Accepted (forward_jumps bob_entries))

-- The tools after that rebuild.
abbrev world_after : World sample_settings table_nft (memory_host (codes "wg0"))
world_after = record { host = record { table = []; routed = false }; firewall = chains_after }

-- Peers are kept apart, and the local network is let in.
abbrev switched : Database × World sample_settings table_nft (memory_host (codes "wg0"))
unfolding toggle_lan_to_peers toggle_peer_to_peer
switched = toggle_lan_to_peers sample_settings table_nft (memory_host (codes "wg0")) true 60 (
    toggle_peer_to_peer sample_settings table_nft (memory_host (codes "wg0")) false 50
      (sample_db, world_after))

toggle_lan_to_peers-toggle_peer_to_peer_example :
    (switched.0 ≡ record sample_db {
      configuration = some (record sample_configuration {
        allow_peer_to_peer = false;
        allow_lan_to_peers = true;
        updated_at = 60;
      });
    })
    × (switched.1.host ≡ world_after.host)
    × (switched.1.firewall.view
        ≡ update
            (update chains_after.view peer_to_peer
              (some (peer_to_peer_rules sample_settings false)))
            lan_to_peers
            (some (lan_to_peers_rules sample_settings true)))
    × ((d : Text)
        → has d (peer_to_peer ∷ (lan_to_peers ∷ [])) ≡ true
        → IsUnreached switched.1.firewall.view d)
unfolding switched
toggle_lan_to_peers-toggle_peer_to_peer_example =
    toggle_lan_to_peers-toggle_peer_to_peer sample_settings table_nft (memory_host (codes "wg0"))
      false true 50 60 ann_entries chains_before chains_after sample_db sample_configuration
      world_after (chains-IsReady ann_entries) rebuilt refl refl
      (all-Accepted (peer_to_peer_rules sample_settings false))
      (all-Accepted (lan_to_peers_rules sample_settings true))

peers_apart :
    switched.1.firewall.view peer_to_peer
    ≡ some (
        statement (codes "ip saddr 10.3.2.0/24 ip daddr 10.3.2.0/24 drop")
        ∷ (statement (codes "ip6 saddr fd00::3:2:0/120 ip6 daddr fd00::3:2:0/120 drop") ∷ []))
unfolding switched toggle_lan_to_peers toggle_peer_to_peer chains_after rebuild_all_rules
peers_apart = refl
