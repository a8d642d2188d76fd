-- ===== src/Nft/Tool.antt =====
-- The interface to `nft`, which services/firewall.py calls as a subprocess: the commands that the
-- program sends, their text, and what the tool documents of them.
use wiregui.Base.{
  ◌≡◌, Bool, true, false, ◌||◌, Option, none, some, List, [], ◌∷◌, ◌++◌, Text, codes, eqb,
  if◌then◌else◌, is_some, Outcome, done,
}

-- `ip saddr` and `ip6 saddr`
pub data Family : Type 0 where
  ip ip6 : Family

-- A rule as the program writes it: a jump of the forward chain, or any other statement as text.
pub data RuleExpr : Type 0 where
  jump : Family → Text → Text → RuleExpr
  statement : Text → RuleExpr

-- The commands of a batch, all in the table `inet wiregui`.
pub data Command : Type 0 where
  add_table : Command
  add_base_chain : Text → Text → Command
  add_chain flush_chain delete_chain : Text → Command
  add_rule : Text → RuleExpr → Command

abbrev pub table_name : Text
table_name = codes "wiregui"

family_text : Family → Text
family_text ip = codes "ip"
family_text ip6 = codes "ip6"

pub expr_text : RuleExpr → Text
unfolding family_text
expr_text (jump f addr chain) =
    family_text f ++ (codes " saddr " ++ (addr ++ (codes " jump " ++ chain)))
expr_text (statement t) = t

-- The line of the batch that is sent.
unfoldable pub render : Command → Text
unfolding expr_text
render add_table = codes "add table inet " ++ table_name
render (add_base_chain c spec) =
    codes "add chain inet " ++ (table_name ++ (codes " " ++ (c ++ (codes " " ++ spec))))
render (add_chain c) = codes "add chain inet " ++ (table_name ++ (codes " " ++ c))
render (flush_chain c) = codes "flush chain inet " ++ (table_name ++ (codes " " ++ c))
render (delete_chain c) = codes "delete chain inet " ++ (table_name ++ (codes " " ++ c))
render (add_rule c e) =
    codes "add rule inet " ++ (table_name ++ (codes " " ++ (c ++ (codes " " ++ expr_text e))))

-- What a ruleset shows: the rules of each chain of the table, `none` where there is no such chain.
abbrev pub View : Type 0
View = Text → Option (List RuleExpr)

abbrev pub update : View → Text → Option (List RuleExpr) → View
update v c o d = if eqb c d then o else v d

abbrev pub rules_or_empty : Option (List RuleExpr) → List RuleExpr
rules_or_empty none = []
rules_or_empty (some rs) = rs

abbrev pub refers : Text → RuleExpr → Bool
refers c (jump f addr t) = eqb t c
refers c (statement t) = false

abbrev pub any_refers : Text → List RuleExpr → Bool
any_refers c [] = false
any_refers c (e ∷ es) = refers c e || any_refers c es

-- The chain that a jump names is there.
abbrev pub resolves : View → RuleExpr → Bool
resolves v (jump f addr t) = is_some (v t)
resolves v (statement t) = true

pub record Nftables : Type 1 where
  pub Ruleset : Type 0
  -- One line of a batch; a non-zero exit has the text of the standard error.
  pub run : Command → Ruleset → Outcome Ruleset
  pub chain : Ruleset → View
  -- Whether the tool can read the rule.
  pub accepts : RuleExpr → Bool
  -- The standard output of `nft list table inet wiregui`; `none` where it fails.
  pub list_table : Ruleset → Option Text
  -- `add table` changes nothing of the chains.
  pub add_table_law :
      (s : Ruleset) → (s' : Ruleset) × (run add_table s ≡ done s') × (chain s' ≡ chain s)
  -- `add chain` with a hook makes a chain where there is none of the name.
  pub add_base_chain_law :
      (c spec : Text) (s : Ruleset)
      → is_some (chain s c) ≡ false
      → (s' : Ruleset) × (run (add_base_chain c spec) s ≡ done s')
        × (chain s' ≡ update (chain s) c (some []))
  -- `add chain` makes an empty chain, and leaves one that is there as it is.
  pub add_chain_law :
      (c : Text) (s : Ruleset)
      → (s' : Ruleset) × (run (add_chain c) s ≡ done s')
        × (chain s' ≡ update (chain s) c (some (rules_or_empty (chain s c))))
  -- `flush chain` empties a chain that is there.
  pub flush_chain_law :
      (c : Text) (s : Ruleset)
      → is_some (chain s c) ≡ true
      → (s' : Ruleset) × (run (flush_chain c) s ≡ done s')
        × (chain s' ≡ update (chain s) c (some []))
  -- `add rule` appends to a chain that is there; a jump needs its target.
  pub add_rule_law :
      (c : Text) (e : RuleExpr) (s : Ruleset)
      → is_some (chain s c) ≡ true
      → accepts e ≡ true
      → resolves (chain s) e ≡ true
      → (s' : Ruleset) × (run (add_rule c e) s ≡ done s')
        × (chain s' ≡ update (chain s) c (some (rules_or_empty (chain s c) ++ (e ∷ []))))
  -- `delete chain` removes a chain that no rule jumps to.
  pub delete_chain_law :
      (c : Text) (s : Ruleset)
      → is_some (chain s c) ≡ true
      → ((d : Text) → any_refers c (rules_or_empty (chain s d)) ≡ false)
      → (s' : Ruleset) × (run (delete_chain c) s ≡ done s') × (chain s' ≡ update (chain s) c none)
