-- ===== src/Firewall/Runs.antt =====
-- What a batch does to the view of the ruleset, command by command, by the laws of the interface.
use wiregui.Base.{
  failed-ne-done, ◌≡◌, refl, sym, ap, subst, ◌∙◌, fun_ext, true, false, Option, none, some, List,
  [], ◌∷◌, ◌++◌, map, Text, append_assoc, append-nil, All, eqb, eqb-eq, eqb_refl, is_some, done,
  Outcome-cases, inl, inr, Bool-cases,
}
use wiregui.Nft.{Command, RuleExpr, Nftables, View, update, rules_or_empty, resolves, any_refers}
use wiregui.Nft.{add_chain, flush_chain, delete_chain, add_rule, jump, statement}
use wiregui.Firewall.Batch.{nft_batch}

pub update_self : (v : View) (c : Text) (o : Option (List RuleExpr)) → update v c o c ≡ o
update_self v c o = rw (eqb_refl c)

pub update_same : (v : View) (c : Text) (o : Option (List RuleExpr)) → v c ≡ o → update v c o ≡ v
update_same v c o e = fun_ext λ d. elim (Bool-cases (eqb c d)) [
  | inl same ↦ rw same (sym e ∙ ap v (eqb-eq c d same))
  | inr other ↦ rw other
]

pub update_twice :
    (v : View) (c : Text) (o p : Option (List RuleExpr)) → update (update v c o) c p ≡ update v c p
update_twice v c o p =
    fun_ext λ d. elim (Bool-cases (eqb c d)) [ inl same ↦ rw same | inr other ↦ rw other ]

-- A jump that resolves still does when a chain is given new rules.
pub resolves-update :
    (v : View) (c : Text) (rs : List RuleExpr) (e : RuleExpr)
    → resolves v e ≡ true
    → resolves (update v c (some rs)) e ≡ true
resolves-update v c rs (jump f a t) h = elim (Bool-cases (eqb c t)) [
  | inl same ↦ rw same
  | inr other ↦ rw other h
]
resolves-update v c rs (statement t) h = refl

pub All-resolves-update :
    (v : View) (c : Text) (rs : List RuleExpr) (es : List RuleExpr)
    → All (λ e. resolves v e ≡ true) es
    → All (λ e. resolves (update v c (some rs)) e ≡ true) es
All-resolves-update v c rs [] h = tt
All-resolves-update v c rs (e ∷ es) h =
    (resolves-update v c rs e h.0, All-resolves-update v c rs es h.1)

module _ (n : Nftables) where
  open n use {
    Ruleset, run, chain, accepts, add_chain_law, flush_chain_law, add_rule_law, delete_chain_law,
  }

  -- The command succeeds, and leaves the view `v`.
  abbrev pub Step : Command → Ruleset → View → Type 0
  Step c s v = (s' : Ruleset) × (run c s ≡ done s') × (chain s' ≡ v)

  -- The batch succeeds, and leaves the view `v`.
  abbrev pub Runs : List Command → Ruleset → View → Type 0
  Runs cs s v = (s' : Ruleset) × (nft_batch n cs s ≡ done s') × (chain s' ≡ v)

  pub Runs-nil : (s : Ruleset) (v : View) → chain s ≡ v → Runs [] s v
  unfolding nft_batch
  Runs-nil s v e = (s, refl, e)

  pub Runs-cons :
      (c : Command) (cs : List Command) (s : Ruleset) (v w : View)
      → Step c s v
      → ((s' : Ruleset) → chain s' ≡ v → Runs cs s' w)
      → Runs (c ∷ cs) s w
  unfolding nft_batch
  Runs-cons c cs s v w (s1, ran, e) rest =
      let (s2, batch, e2) = rest s1 e in (s2, rw (ran, nft_batch) batch, e2)

  nft_batch-append :
      (cs ds : List Command) (s s1 : Ruleset)
      → nft_batch n cs s ≡ done s1
      → nft_batch n (cs ++ ds) s ≡ nft_batch n ds s1
  unfolding nft_batch
  nft_batch-append [] ds s s1 h = cc
  nft_batch-append (c ∷ cs) ds s s1 h = elim (Outcome-cases (run c s)) [
    | inl (s', e) ↦ rw (e, nft_batch) (nft_batch-append cs ds s' s1 (rw (e, nft_batch) at h))
    | inr (m, e) ↦ absurd (failed-ne-done (rw (e, nft_batch) at h))
  ]

  pub Runs-append :
      (cs ds : List Command) (s : Ruleset) (v w : View)
      → Runs cs s v
      → ((s' : Ruleset) → chain s' ≡ v → Runs ds s' w)
      → Runs (cs ++ ds) s w
  Runs-append cs ds s v w (s1, ran, e) rest =
      let (s2, batch, e2) = rest s1 e in (s2, nft_batch-append cs ds s s1 ran ∙ batch, e2)

  -- The laws at a view that is known.
  pub Step-add_chain :
      (c : Text) (s : Ruleset) (v : View)
      → chain s ≡ v
      → Step (add_chain c) s (update v c (some (rules_or_empty (v c))))
  Step-add_chain c s v same =
      let (s', ran, eq) = add_chain_law c s in
      (s', ran, eq ∙ ap (λ (w : View). update w c (some (rules_or_empty (w c)))) same)

  pub Step-flush_chain :
      (c : Text) (s : Ruleset) (v : View)
      → chain s ≡ v
      → is_some (v c) ≡ true
      → Step (flush_chain c) s (update v c (some []))
  Step-flush_chain c s v same there =
      let (s', ran, eq) = flush_chain_law c s (ap (λ (w : View). is_some (w c)) same ∙ there) in
      (s', ran, eq ∙ ap (λ (w : View). update w c (some [])) same)

  pub Step-add_rule :
      (c : Text) (e : RuleExpr) (s : Ruleset) (v : View) (rs : List RuleExpr)
      → chain s ≡ v
      → v c ≡ some rs
      → accepts e ≡ true
      → resolves v e ≡ true
      → Step (add_rule c e) s (update v c (some (rs ++ e ∷ [])))
  Step-add_rule c e s v rs same at ok there =
      let (s', ran, eq) =
        add_rule_law c e s (ap (λ (w : View). is_some (w c)) same ∙ ap is_some at) ok
          (ap (λ (w : View). resolves w e) same ∙ there) in
      (
        s',
        ran,
        eq
            ∙ ap (λ (w : View). update w c (some (rules_or_empty (w c) ++ e ∷ []))) same
            ∙ ap (λ o. update v c (some (rules_or_empty o ++ e ∷ []))) at,
      )

  pub Step-delete_chain :
      (c : Text) (s : Ruleset) (v : View)
      → chain s ≡ v
      → is_some (v c) ≡ true
      → ((d : Text) → any_refers c (rules_or_empty (v d)) ≡ false)
      → Step (delete_chain c) s (update v c none)
  Step-delete_chain c s v same there free =
      let (s', ran, eq) =
        delete_chain_law c s (ap (λ (w : View). is_some (w c)) same ∙ there)
          (λ d. ap (λ (w : View). any_refers c (rules_or_empty (w d))) same ∙ free d) in
      (s', ran, eq ∙ ap (λ (w : View). update w c none) same)

  -- Appending rules that the tool accepts.
  pub Runs-add_rules :
      (c : Text) (es : List RuleExpr) (s : Ruleset) (v : View) (rs : List RuleExpr)
      → chain s ≡ v
      → v c ≡ some rs
      → All (λ e. accepts e ≡ true) es
      → All (λ e. resolves v e ≡ true) es
      → Runs (map (add_rule c) es) s (update v c (some (rs ++ es)))
  Runs-add_rules c [] s v rs same at ok there =
      Runs-nil s _
        (same ∙ sym (update_same v c (some (rs ++ [])) (at ∙ ap some (sym (append-nil rs)))))
  Runs-add_rules c (e ∷ es) s v rs same at ok there =
      Runs-cons (add_rule c e) (map (add_rule c) es) s (update v c (some (rs ++ e ∷ []))) _
        (Step-add_rule c e s v rs same at ok.0 there.0)
        λ s' eq.
          subst (Runs (map (add_rule c) es) s')
            (update_twice v c _ _ ∙ ap (λ l. update v c (some l)) (append_assoc rs (e ∷ []) es))
            (Runs-add_rules c es s' (update v c (some (rs ++ e ∷ []))) (rs ++ e ∷ []) eq
              (update_self v c _) ok.1 (All-resolves-update v c _ es there.1))
