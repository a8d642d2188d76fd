-- ===== src/Firewall/Stable.antt =====
-- Two rebuilds, one after the other.
use wiregui.Base.{
  ◌≡◌, refl, sym, ap, ◌∙◌, fun_ext, false, ◌&&◌, List, [], ◌∷◌, map, Text, All, eqb, eqb-eq, has,
  starts_with, arith, is_some, done, done-eq, Bool-cases, inl, inr, true-ne-false,
}
use wiregui.Nft.{Nftables, View, rules_or_empty, any_refers}
use wiregui.Firewall.Names.{list_user_chains}
use wiregui.Firewall.Batch.{
  Entry, forward, entry_chain, chain_rules, forward_jumps, rebuild_all_rules,
}
use wiregui.Firewall.Jumps.{any_refers-chain_rules}
use wiregui.Firewall.Rebuild.{rules_for, is_some-rules_for, Accepted}
use wiregui.Firewall.Reconciled.{
  IsReady, user_prefix, rebuilt_view, rebuild_all_rules_lem, starts_with-user_chain_name,
}

rules_for-free :
    (es : List Entry) (c d : Text) → any_refers c (rules_or_empty (rules_for es d)) ≡ false
rules_for-free [] c d = refl
rules_for-free (e ∷ es) c d = ground (arith, rules_for-free es c d, any_refers-chain_rules c e)

-- Outside the forward chain nothing jumps to a chain.
pub rebuilt_view-free :
    (es : List Entry) (v : View) (c d : Text)
    → any_refers c (rules_or_empty (v d)) ≡ false
    → eqb forward d ≡ false
    → any_refers c (rules_or_empty (rebuilt_view es v d)) ≡ false
rebuilt_view-free es v c d h other = ground (arith, rules_for-free es c d)

pub has-entry_chain :
    (c : Text) (es : List Entry)
    → starts_with user_prefix c ≡ false
    → has c (map entry_chain es) ≡ false
has-entry_chain c [] h = refl
has-entry_chain c (e ∷ es) h = elim (Bool-cases (eqb (entry_chain e) c)) [
  | inl same ↦ absurd (
      true-ne-false (
        sym (starts_with-user_chain_name e.user_id)
        ∙ ap (starts_with user_prefix) (eqb-eq (entry_chain e) c same)
        ∙ h))
  | inr other ↦ rw other (has-entry_chain c es h)
]

-- What a rebuild leaves does not depend on the one before it.
rebuilt_view-rebuilt_view :
    (es es' : List Entry) (v : View) (c : Text)
    → rebuilt_view es' (rebuilt_view es v) c ≡ rebuilt_view es' v c
rebuilt_view-rebuilt_view es es' v c =
    ground (arith, is_some-rules_for es c, is_some-rules_for es' c, has-entry_chain c es)

module _ (n : Nftables) where
  open n use {Ruleset, chain, list_table}

  rebuild_all_rules-IsReady :
      (es es' : List Entry) (s s' : Ruleset)
      → IsReady n es s
      → rebuild_all_rules n es s ≡ done s'
      → ((c : Text)
          → has c (list_user_chains (list_table s'))
            ≡ (starts_with user_prefix c && is_some (chain s' c)))
      → All (λ e. Accepted n (chain_rules e)) es'
      → Accepted n (forward_jumps es')
      → IsReady n es' s'
  rebuild_all_rules-IsReady es es' s s' ready ran lists rules jumps =
      let (t, ran_t, view_t) = rebuild_all_rules_lem n es s ready in
      let view : chain s' ≡ rebuilt_view es (chain s) =
        ap chain (done-eq (sym ran ∙ ran_t)) ∙ view_t in
      record {
        forward_there = ap (λ (v : View). is_some (v forward)) view;
        listed = lists;
        no_stray = λ c d other.
            (ap (λ (v : View). any_refers c (rules_or_empty (v d))) view
              ∙ rebuilt_view-free es (chain s) c d (ready.no_stray c d other) other);
        rules_accepted = rules;
        jumps_accepted = jumps;
      }

  -- Where a rebuild has run from a ruleset that was ready for it, the table then lists its user
  -- chains, and the tool accepts the rules and the jumps of the next entries, a rebuild with those
  -- succeeds, and leaves the chains as if the first one had never run.
  pub rebuild_all_rules-rebuild_all_rules :
      (es es' : List Entry) (s s' : Ruleset)
      → IsReady n es s
      → rebuild_all_rules n es s ≡ done s'
      → ((c : Text)
          → has c (list_user_chains (list_table s'))
            ≡ (starts_with user_prefix c && is_some (chain s' c)))
      → All (λ e. Accepted n (chain_rules e)) es'
      → Accepted n (forward_jumps es')
      → (s'' : Ruleset) × (rebuild_all_rules n es' s' ≡ done s'')
        × (chain s'' ≡ rebuilt_view es' (chain s))
  rebuild_all_rules-rebuild_all_rules es es' s s' ready ran lists rules jumps =
      let (t, ran_t, view_t) = rebuild_all_rules_lem n es s ready in
      let (s'', again, view) =
        rebuild_all_rules_lem n es' s'
          (rebuild_all_rules-IsReady es es' s s' ready ran lists rules jumps) in
      (
        s'',
        again,
        view
            ∙ ap (rebuilt_view es') (ap chain (done-eq (sym ran ∙ ran_t)) ∙ view_t)
            ∙ fun_ext (rebuilt_view-rebuilt_view es es' (chain s)),
      )
