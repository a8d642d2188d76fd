-- ===== src/Firewall/Ops.antt =====
-- The other operations of wiregui/services/firewall.py: setup, chains, jumps and policies.
use wiregui.Base.{
  Bool, Option, List, [], ◌∷◌, ◌++◌, map, Text, codes, contains_text, if◌then◌else◌, Outcome, done,
  failed,
}
use wiregui.Settings.{Settings}
use wiregui.Nft.{Command, RuleExpr, Nftables}
use wiregui.Nft.{add_table, add_base_chain, add_chain, flush_chain, add_rule, statement}
use wiregui.Firewall.Names.{user_chain_name, build_rule_expr}
use wiregui.Firewall.Batch.{DeviceAddresses, forward, jump_rules, delete_commands, nft_batch}

abbrev pub postrouting : Text
postrouting = codes "postrouting"

abbrev pub peer_to_peer : Text
peer_to_peer = codes "peer_to_peer"

abbrev pub lan_to_peers : Text
lan_to_peers = codes "lan_to_peers"

abbrev pub forward_hook : Text
forward_hook = codes "{ type filter hook forward priority 0; policy accept; }"

abbrev pub postrouting_hook : Text
postrouting_hook = codes "{ type nat hook postrouting priority 100; policy accept; }"

unfoldable pub base_commands : List Command
base_commands =
    add_table
    ∷ (add_base_chain forward forward_hook ∷ (add_base_chain postrouting postrouting_hook ∷ []))

masquerade : Text → Text → Text → RuleExpr
masquerade family net iface = statement (
    family
    ++ (codes " saddr " ++ (net ++ (codes " oifname != \"" ++ (iface ++ codes "\" masquerade")))))

unfoldable pub masquerade_rules : Settings → Text → List RuleExpr
unfolding masquerade
masquerade_rules settings iface =
    masquerade (codes "ip") settings.wg_ipv4_network iface
    ∷ (masquerade (codes "ip6") settings.wg_ipv6_network iface ∷ [])

unfoldable pub masquerade_commands : Settings → Text → List Command
unfolding masquerade_rules
masquerade_commands settings iface =
    flush_chain postrouting ∷ map (add_rule postrouting) (masquerade_rules settings iface)

-- The verdict of a policy switch.
abbrev verdict : Bool → Text
verdict enabled = if enabled then codes "accept" else codes "drop"

-- A rule on the traffic from `source` to `net`.
policy_rule : Text → Text → Text → Bool → RuleExpr
policy_rule family source net enabled = statement (
    family
    ++ (codes " saddr "
        ++ (source
            ++ (codes " "
                ++ (family ++ (codes " daddr " ++ (net ++ (codes " " ++ verdict enabled))))))))

unfoldable pub peer_to_peer_rules : Settings → Bool → List RuleExpr
unfolding policy_rule
peer_to_peer_rules settings enabled =
    let v4 = settings.wg_ipv4_network in
    let v6 = settings.wg_ipv6_network in
    policy_rule (codes "ip") v4 v4 enabled ∷ (policy_rule (codes "ip6") v6 v6 enabled ∷ [])

unfoldable pub lan_to_peers_rules : Settings → Bool → List RuleExpr
unfolding policy_rule
lan_to_peers_rules settings enabled =
    let v4 = settings.wg_ipv4_network in
    let v6 = settings.wg_ipv6_network in
    policy_rule (codes "ip") (codes "!= " ++ v4) v4 enabled
    ∷ (policy_rule (codes "ip6") (codes "!= " ++ v6) v6 enabled ∷ [])

-- The batch that gives a chain its rules anew.
abbrev pub policy_commands : Text → List RuleExpr → List Command
policy_commands chain rules = add_chain chain ∷ (flush_chain chain ∷ map (add_rule chain) rules)

module _ (n : Nftables) where
  open n use {Ruleset}

  -- `except RuntimeError` that raises again unless the error says that the thing exists.
  unfoldable pub allow_existing : Ruleset → Outcome Ruleset → Outcome Ruleset
  allow_existing s (done s') = done s'
  allow_existing s (failed e) = if contains_text (codes "File exists") e then done s else failed e

  -- `except RuntimeError` that only logs.
  unfoldable pub log_failure : Ruleset → Outcome Ruleset → Ruleset
  log_failure s (done s') = s'
  log_failure s (failed e) = s

  unfoldable pub setup_base_tables : Ruleset → Outcome Ruleset
  unfolding base_commands nft_batch allow_existing
  setup_base_tables s = allow_existing s (nft_batch n base_commands s)

  unfoldable pub setup_masquerade : Settings → Ruleset → Ruleset
  unfolding masquerade_commands nft_batch log_failure
  setup_masquerade settings s =
      log_failure s (nft_batch n (masquerade_commands settings settings.wg_interface) s)

  unfoldable pub add_user_chain : Text → Ruleset → Outcome Ruleset
  unfolding nft_batch allow_existing
  add_user_chain user_id s =
      allow_existing s (nft_batch n (add_chain (user_chain_name user_id) ∷ []) s)

  unfoldable pub remove_user_chain : Text → Ruleset → Ruleset
  unfolding nft_batch log_failure
  remove_user_chain user_id s =
      log_failure s (nft_batch n (delete_commands (user_chain_name user_id)) s)

  -- `if commands:` is the case of an empty batch, which runs nothing.
  unfoldable pub add_device_jump_rule : Text → DeviceAddresses → Ruleset → Outcome Ruleset
  unfolding nft_batch jump_rules
  add_device_jump_rule user_id dev s =
      nft_batch n (map (add_rule forward) (jump_rules (user_chain_name user_id) dev)) s

  unfoldable pub apply_rule :
      Text → Text → Text → Option Text → Option Text → Ruleset → Outcome Ruleset
  unfolding nft_batch build_rule_expr
  apply_rule user_id destination action port_type port_range s =
      let rule = statement (build_rule_expr destination action port_type port_range) in
      nft_batch n (add_rule (user_chain_name user_id) rule ∷ []) s

  unfoldable pub apply_peer_to_peer_policy : Settings → Bool → Ruleset → Ruleset
  unfolding peer_to_peer_rules nft_batch log_failure
  apply_peer_to_peer_policy settings enabled s =
      log_failure s
        (nft_batch n (policy_commands peer_to_peer (peer_to_peer_rules settings enabled)) s)

  unfoldable pub apply_lan_to_peers_policy : Settings → Bool → Ruleset → Ruleset
  unfolding lan_to_peers_rules nft_batch log_failure
  apply_lan_to_peers_policy settings enabled s =
      log_failure s
        (nft_batch n (policy_commands lan_to_peers (lan_to_peers_rules settings enabled)) s)
