-- ===== src/Firewall/Ordered.antt =====
-- The chain of a user against the rules that the callers pass for it.
use mathlib.Core.List.{Perm}
use wiregui.Base.{◌≡◌, refl, List, map}
use wiregui.Base.Int.{ℤ}
use wiregui.Nft.{RuleExpr, statement}
use wiregui.Firewall.Names.{build_rule_expr}
use wiregui.Firewall.Sorted.{FilterRule, InOrder, of_priority, sort_rules, sort_rules_lem}
use wiregui.Firewall.Batch.{Entry, chain_rules, rule_expr}

-- The text of one rule in its chain.
abbrev pub text_of : FilterRule → RuleExpr
unfolding build_rule_expr
text_of r = statement (build_rule_expr r.destination r.action r.port_type r.port_range)

-- The chain of a user holds one line for each of the rules that were given and nothing else, in the
-- order of the priorities, and the lines of one priority in the order in which their rules came.
pub chain_rules_lem :
    (e : Entry)
    → (rs : List FilterRule) × (chain_rules e ≡ map text_of rs)
      × InOrder rs
      × Perm rs e.rules
      × ((p : ℤ) → of_priority p rs ≡ of_priority p e.rules)
unfolding chain_rules rule_expr
chain_rules_lem e =
    let (sorted, all, stable) = sort_rules_lem e.rules in
    (sort_rules e.rules, refl, sorted, all, stable)
