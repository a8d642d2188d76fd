-- ===== src/Examples/Rest.antt =====
-- Examples for addresses, orders and notifications.
use wiregui.Base.{
  ℕ, ◌≤◌, ◌≡◌, refl, true, false, none, some, List, [], ◌∷◌, Text, codes, split, map, All, filter,
  arith, done,
}
use mathlib.Core.List.{Perm}
use wiregui.Base.Int.{ℤ, pos}
use wiregui.Nft.{ip}
use wiregui.Net.{Network, show_v4, show_address}
use wiregui.Models.{Rule, Device}
use wiregui.Database.{find, rule_le}
use wiregui.Allocation.{find_available}
use wiregui.Allocation.Search.{IsFree, find_available-IsFree}
use wiregui.Allocation.Free.{find_available_total}
use wiregui.Firewall.{Entry, FilterRule, chain_rules}
use wiregui.Firewall.Sorted.{InOrder, of_priority}
use wiregui.Firewall.Ordered.{text_of, chain_rules_lem}
use wiregui.Tasks.{Notification, adds, clears, apply_ops, count, max_notifications}
use wiregui.Tasks.Notifications.{count-apply_ops}
use wiregui.Ordering.{persist_order, next_priority, in_scope}
use wiregui.Ordering.Persisted.{persist_order_lem}
use wiregui.Ordering.Appended.{◌<ℤ◌, next_priority-All}
use wiregui.Client.{build_client_config}
use wiregui.Examples.Samples.{sample_settings, laptop, first_rule, second_rule}

-- 10.3.2.0/29, with one of its five addresses in use.
abbrev small_network : Network
small_network = record { family = ip; network_address = 167969280; scope = []; prefixlen = 29 }

abbrev used : List Text
used = codes "10.3.2.2" ∷ []

find_available_total_example :
    (a : Text) × (find_available small_network used (λ _. 167969282) ≡ done a)
find_available_total_example =
    find_available_total small_network used (λ _. 167969282) refl (omega arith) (omega arith)

scanned : find_available small_network used (λ _. 167969282) ≡ done (codes "10.3.2.3")
unfolding find_available show_v4
scanned = refl

find_available-IsFree_example : IsFree (show_address ip) used 167969282 5 (codes "10.3.2.3")
find_available-IsFree_example =
    find_available-IsFree small_network used (λ _. 167969282) (λ i. (omega arith, omega arith))
      scanned

abbrev filter_rule : Text → ℕ → FilterRule
filter_rule destination priority = record {
  destination = destination;
  action = codes "accept";
  port_type = none;
  port_range = none;
  priority = pos priority;
}

abbrev three_rules : List FilterRule
three_rules =
    filter_rule (codes "10.0.0.0/8") 20
    ∷ (filter_rule (codes "10.1.0.0/16") 10 ∷ (filter_rule (codes "10.2.0.0/16") 20 ∷ []))

abbrev three_entry : Entry
three_entry = record { user_id = codes "a"; devices = []; rules = three_rules }

chain_rules_lem_example :
    (rs : List FilterRule) × (chain_rules three_entry ≡ map text_of rs)
    × InOrder rs
    × Perm rs three_rules
    × ((p : ℤ) → of_priority p rs ≡ of_priority p three_rules)
chain_rules_lem_example = chain_rules_lem three_entry

abbrev notice : Notification
notice = record {
  id = codes "n1";
  severity = codes "info";
  message = codes "hello";
  user = none;
  timestamp = 1;
}

count-apply_ops_example :
    count (apply_ops (adds notice ∷ (adds notice ∷ (clears (codes "n1") ∷ []))) [])
    ≤ max_notifications
unfolding count
count-apply_ops_example =
    count-apply_ops (adds notice ∷ (adds notice ∷ (clears (codes "n1") ∷ []))) [] (omega arith)

abbrev dragged : List Text
dragged = codes "r2" ∷ (codes "r1" ∷ [])

rules_there :
    (find (λ q. q.id) (codes "r2") (first_rule ∷ (second_rule ∷ [])) ≡ some second_rule)
    × (find (λ q. q.id) (codes "r1") (first_rule ∷ (second_rule ∷ [])) ≡ some first_rule)
unfolding find
rules_there = (refl, refl)

persist_order_lem_example :
    (r' : Rule) × (s' : Rule) × (find
        (λ q. q.id)
        (codes "r2")
        (persist_order 5 dragged (first_rule ∷ (second_rule ∷ [])))
      ≡ some r')
    × (find (λ q. q.id) (codes "r1") (persist_order 5 dragged (first_rule ∷ (second_rule ∷ [])))
        ≡ some s')
    × (rule_le r' s' ≡ true)
    × (rule_le s' r' ≡ false)
persist_order_lem_example =
    persist_order_lem 5 0 1 (codes "r2") (codes "r1") dragged second_rule first_rule
      (first_rule ∷ (second_rule ∷ [])) (refl, (refl, tt)) (omega arith) refl refl rules_there.0
      rules_there.1

next_priority-All_example :
    All
      (λ r. r.priority <ℤ next_priority (some (codes "a")) (first_rule ∷ (second_rule ∷ [])))
      (filter (in_scope (some (codes "a"))) (first_rule ∷ (second_rule ∷ [])))
next_priority-All_example = next_priority-All (some (codes "a")) (first_rule ∷ (second_rule ∷ []))

abbrev tablet : Device
tablet = record laptop {
  use_default_allowed_ips = false;
  use_default_dns = false;
  use_default_endpoint = false;
  use_default_mtu = false;
  use_default_persistent_keepalive = false;
  endpoint = some (codes "gw.example.org");
  mtu = some (pos 1400);
  persistent_keepalive = some (pos 0);
  allowed_ips = codes "10.0.0.0/8" ∷ [];
}

tablet_config :
    split 10 (build_client_config sample_settings tablet (codes "priv") (codes "pub") none)
    ≡ codes "[Interface]"
      ∷ (codes "PrivateKey = priv"
          ∷ (codes "Address = 10.3.2.2/32"
              ∷ (codes "MTU = 1400"
                  ∷ ([]
                      ∷ (codes "[Peer]"
                          ∷ (codes "PublicKey = pub"
                              ∷ (codes "AllowedIPs = 10.0.0.0/8"
                                  ∷ (codes "Endpoint = gw.example.org:51820" ∷ ([] ∷ [])))))))))
unfolding build_client_config
tablet_config = refl
