-- ===== src/Firewall/Rebuild.antt =====
-- `rebuild_all_rules` as a whole: the batch succeeds, and the ruleset that it leaves.
use wiregui.Base.{
  true-ne-false, ◌≡◌, refl, sym, ap, subst, ◌∙◌, true, false, ◌||◌, Option, none, some, List, [],
  ◌∷◌, map, Text, All, All-map, eqb, eqb-eq, has, arith, if◌then◌else◌, is_some, inl, inr,
  Bool-cases,
}
use wiregui.Base.Distinct.{Distinct, has_first, has_rest}
use wiregui.Nft.{RuleExpr, Nftables, View, update, rules_or_empty, resolves, any_refers}
use wiregui.Nft.{add_chain, flush_chain, add_rule}
use wiregui.Firewall.Batch.{
  Entry, concat, rule_expr, entry_chain, chain_rules, user_commands, delete_commands,
}
use wiregui.Firewall.Sorted.{sort_rules}
use wiregui.Firewall.Runs.{
  update_self, update_twice, All-resolves-update, Runs, Runs-nil, Runs-cons, Runs-append,
  Runs-add_rules, Step-add_chain, Step-flush_chain, Step-delete_chain,
}

-- The chain of one user, and those of all, as the batch leaves them.
abbrev pub with_user : View → Entry → View
with_user v e = update v (entry_chain e) (some (chain_rules e))

abbrev pub with_users : View → List Entry → View
with_users v [] = v
with_users v (e ∷ es) = with_users (with_user v e) es

abbrev pub without_chains : View → List Text → View
without_chains v [] = v
without_chains v (c ∷ cs) = without_chains (update v c none) cs

pub without_chains_lem :
    (v : View) (cs : List Text) (d : Text)
    → without_chains v cs d ≡ (if has d cs then none else v d)
without_chains_lem v [] d = refl
without_chains_lem v (c ∷ cs) d = without_chains_lem (update v c none) cs d ∙ ground arith

-- The rules of the last entry that has the chain.
abbrev pub rules_for : List Entry → Text → Option (List RuleExpr)
rules_for [] c = none
rules_for (e ∷ es) c = elim (rules_for es c) [
  | some rs ↦ some rs
  | none ↦ if eqb (entry_chain e) c then some (chain_rules e) else none
]

pub is_some-rules_for :
    (es : List Entry) (c : Text) → is_some (rules_for es c) ≡ has c (map entry_chain es)
is_some-rules_for [] c = refl
is_some-rules_for (e ∷ es) c = ground (arith, is_some-rules_for es c)

pub with_users_lem :
    (v : View) (es : List Entry) (c : Text)
    → with_users v es c ≡ elim (rules_for es c) [ some rs ↦ some rs | none ↦ v c ]
with_users_lem v [] c = refl
with_users_lem v (e ∷ es) c = with_users_lem (with_user v e) es c ∙ ground arith

pub with_users-is_some :
    (v : View) (es : List Entry) (c : Text)
    → (is_some (v c) || has c (map entry_chain es)) ≡ true
    → is_some (with_users v es c) ≡ true
with_users-is_some v [] c h = ground arith
with_users-is_some v (e ∷ es) c h = with_users-is_some (with_user v e) es c (ground arith)

-- A user's own rules are no jumps.
pub chain_rules-resolve : (v : View) (e : Entry) → All (λ r. resolves v r ≡ true) (chain_rules e)
unfolding chain_rules
chain_rules-resolve v e =
    All-map (λ r. resolves v r ≡ true) rule_expr (sort_rules e.rules)
      (λ r. unfold rule_expr in refl)

-- A chain other than the one that was deleted is still there.
still_there :
    (v : View) (c : Text) (cs : List Text) (d : Text)
    → has c cs ≡ false
    → has d cs ≡ true
    → is_some (v d) ≡ true
    → is_some (update v c none d) ≡ true
still_there v c cs d new m h = elim (Bool-cases (eqb c d)) [
  | inl same ↦ absurd (true-ne-false (sym m ∙ ap (λ x. has x cs) (sym (eqb-eq c d same)) ∙ new))
  | inr other ↦ rw other h
]

-- A chain that is given rules without a jump does not come to hold one.
pub free-update :
    (v : View) (c d : Text) (o : Option (List RuleExpr)) (t : Text)
    → any_refers t (rules_or_empty o) ≡ false
    → any_refers t (rules_or_empty (v d)) ≡ false
    → any_refers t (rules_or_empty (update v c o d)) ≡ false
free-update v c d o t ho hv = elim (Bool-cases (eqb c d)) [
  | inl same ↦ rw same ho
  | inr other ↦ rw other hv
]

module _ (n : Nftables) where
  open n use {Ruleset, chain, accepts}

  abbrev pub Accepted : List RuleExpr → Type 0
  Accepted es = All (λ e. accepts e ≡ true) es

  -- A chain is made where it is missing, emptied, and given rules that the tool accepts.
  pub Runs-rewritten :
      (c : Text) (es : List RuleExpr) (s : Ruleset) (v : View)
      → chain s ≡ v
      → Accepted es
      → ((w : View) → All (λ e. resolves w e ≡ true) es)
      → Runs n (add_chain c ∷ (flush_chain c ∷ map (add_rule c) es)) s (update v c (some es))
  Runs-rewritten c es s v same ok known =
      let v1 = update v c (some (rules_or_empty (v c))) in
      let v2 = update v1 c (some []) in
      Runs-cons n _ _ s v1 _ (Step-add_chain n c s v same) λ s1 eq1.
        Runs-cons n _ _ s1 v2 _ (Step-flush_chain n c s1 v1 eq1 (ap is_some (update_self v c _)))
          λ s2 eq2.
            subst (Runs n (map (add_rule c) es) s2) (update_twice v1 c _ _ ∙ update_twice v c _ _)
              (Runs-add_rules n c es s2 v2 [] eq2 (update_self v1 c _) ok (known v2))

  Runs-user :
      (e : Entry) (s : Ruleset) (v : View)
      → chain s ≡ v
      → Accepted (chain_rules e)
      → Runs n (user_commands e) s (with_user v e)
  unfolding user_commands
  Runs-user e s v same ok =
      Runs-rewritten (entry_chain e) (chain_rules e) s v same ok (λ w. chain_rules-resolve w e)

  pub Runs-users :
      (es : List Entry) (s : Ruleset) (v : View)
      → chain s ≡ v
      → All (λ e. Accepted (chain_rules e)) es
      → Runs n (concat (map user_commands es)) s (with_users v es)
  Runs-users [] s v same ok = Runs-nil n s v same
  Runs-users (e ∷ es) s v same ok =
      Runs-append n (user_commands e) _ s (with_user v e) _ (Runs-user e s v same ok.0)
        λ s1 eq. Runs-users es s1 (with_user v e) eq ok.1

  -- A chain that is there is emptied, and given rules that the tool accepts.
  pub Runs-refilled :
      (c : Text) (js : List RuleExpr) (s : Ruleset) (v : View)
      → chain s ≡ v
      → is_some (v c) ≡ true
      → Accepted js
      → All (λ j. resolves v j ≡ true) js
      → Runs n (flush_chain c ∷ map (add_rule c) js) s (update v c (some js))
  Runs-refilled c js s v same there ok known =
      let v1 = update v c (some []) in
      Runs-cons n _ _ s v1 _ (Step-flush_chain n c s v same there) λ s1 eq.
        subst (Runs n (map (add_rule c) js) s1) (update_twice v c _ _) (
          Runs-add_rules n c js s1 v1 [] eq (update_self v c _) ok
            (All-resolves-update v c [] js known))

  -- Chains that nothing jumps to, each there and named once, are deleted.
  pub Runs-deletes :
      (cs : List Text) (s : Ruleset) (v : View)
      → chain s ≡ v
      → Distinct cs
      → ((c : Text) → has c cs ≡ true → is_some (v c) ≡ true)
      → ((c d : Text) → has c cs ≡ true → any_refers c (rules_or_empty (v d)) ≡ false)
      → Runs n (concat (map delete_commands cs)) s (without_chains v cs)
  Runs-deletes [] s v same once there free = Runs-nil n s v same
  Runs-deletes (c ∷ cs) s v same once there free =
      let v1 = update v c (some []) in
      Runs-cons n _ _ s v1 _ (Step-flush_chain n c s v same (there c (has_first c cs))) λ s1 eq1.
        Runs-cons n _ _ s1 (update v c none) _
          (let (s', ran, eq) =
              Step-delete_chain n c s1 v1 eq1 (ap is_some (update_self v c _))
                (λ d. free-update v c d (some []) c refl (free c d (has_first c cs))) in
            (s', ran, eq ∙ update_twice v c _ _))
          λ s2 eq2.
            Runs-deletes cs s2 (update v c none) eq2 once.1
              (λ d m. still_there v c cs d once.0 m (there d (has_rest c cs d m)))
              (λ d x m. free-update v c x none d refl (free d x (has_rest c cs d m)))
