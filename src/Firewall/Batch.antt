-- ===== src/Firewall/Batch.antt =====
-- The operations of wiregui/services/firewall.py. Each builds a batch; what an operation does
-- with the error of a failed batch is its own.
use wiregui.Base.{
  not, Option, List, [], ◌∷◌, ◌++◌, map, Text, codes, has, truthy, text_or_empty, filter,
  if◌then◌else◌, Outcome, done, failed,
}
use wiregui.Nft.{Command, RuleExpr, Nftables, Family, ip, ip6}
use wiregui.Nft.{add_chain, flush_chain, delete_chain, add_rule, jump, statement}
use wiregui.Firewall.Names.{user_chain_name, family_of, build_rule_expr, list_user_chains}
use wiregui.Firewall.Sorted.{FilterRule, sort_rules}

-- The dict of one device that the callers pass.
pub record DeviceAddresses : Type 0 where
  pub ipv4 : Option Text
  pub ipv6 : Option Text
  pub allowed_subnets : List Text

-- The dict of one user that `rebuild_all_rules` takes.
pub record Entry : Type 0 where
  pub user_id : Text
  pub devices : List DeviceAddresses
  pub rules : List FilterRule

abbrev pub forward : Text
forward = codes "forward"

abbrev pub concat {ℓ} : {A : Type ℓ} → List (List A) → List A
concat [] = []
concat (xs ∷ xss) = xs ++ concat xss

abbrev pub tunnel_jump : Family → Text → Option Text → List RuleExpr
tunnel_jump f chain addr = if truthy addr then jump f (text_or_empty addr) chain ∷ [] else []

abbrev pub subnet_jump : Text → Text → RuleExpr
subnet_jump chain subnet = jump (family_of subnet) subnet chain

-- The jumps of one device: its tunnel addresses, then its relay subnets.
unfoldable pub jump_rules : Text → DeviceAddresses → List RuleExpr
unfolding family_of
jump_rules chain dev =
    tunnel_jump ip chain dev.ipv4
    ++ (tunnel_jump ip6 chain dev.ipv6 ++ map (subnet_jump chain) dev.allowed_subnets)

unfoldable pub rule_expr : FilterRule → RuleExpr
unfolding build_rule_expr
rule_expr r = statement (build_rule_expr r.destination r.action r.port_type r.port_range)

abbrev pub entry_chain : Entry → Text
entry_chain e = user_chain_name e.user_id

-- The rules of a user's chain, in the order of their priorities.
unfoldable pub chain_rules : Entry → List RuleExpr
unfolding rule_expr sort_rules
chain_rules e = map rule_expr (sort_rules e.rules)

unfoldable pub user_commands : Entry → List Command
unfolding chain_rules
user_commands e =
    add_chain (entry_chain e)
    ∷ (flush_chain (entry_chain e) ∷ map (add_rule (entry_chain e)) (chain_rules e))

unfoldable pub entry_jumps : Entry → List RuleExpr
unfolding jump_rules
entry_jumps e = concat (map (jump_rules (entry_chain e)) e.devices)

unfoldable pub forward_jumps : List Entry → List RuleExpr
unfolding entry_jumps
forward_jumps entries = concat (map entry_jumps entries)

abbrev pub delete_commands : Text → List Command
delete_commands chain = flush_chain chain ∷ (delete_chain chain ∷ [])

-- The chains that exist and that no entry expects.
unfoldable pub orphaned_chains : List Text → List Entry → List Text
orphaned_chains existing entries = filter (λ c. not (has c (map entry_chain entries))) existing

-- The batch of `rebuild_all_rules`.
unfoldable pub rebuild_commands : List Text → List Entry → List Command
unfolding user_commands forward_jumps orphaned_chains
rebuild_commands existing entries =
    concat (map user_commands entries)
    ++ ((flush_chain forward ∷ map (add_rule forward) (forward_jumps entries))
        ++ concat (map delete_commands (orphaned_chains existing entries)))

module _ (n : Nftables) where
  open n use {Ruleset, run, list_table}

  -- `_nft_batch`. A batch is atomic: after an error the ruleset is what it was before the batch.
  unfoldable pub nft_batch : List Command → Ruleset → Outcome Ruleset
  nft_batch [] s = done s
  nft_batch (c ∷ cs) s = elim (run c s) [ done s' ↦ nft_batch cs s' | failed e ↦ failed e ]

  -- `rebuild_all_rules`
  unfoldable pub rebuild_all_rules : List Entry → Ruleset → Outcome Ruleset
  unfolding nft_batch rebuild_commands list_user_chains
  rebuild_all_rules entries s =
      nft_batch (rebuild_commands (list_user_chains (list_table s)) entries) s
