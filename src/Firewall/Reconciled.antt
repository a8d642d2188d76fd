-- ===== src/Firewall/Reconciled.antt =====
-- `rebuild_all_rules` as a whole: from a ruleset that is ready for it, the batch succeeds, and
-- every chain of the table is then as one equation says.
use wiregui.Base.{
  ◌≡◌, refl, ◌∙◌, fun_ext, true, false, not, ◌&&◌, Option, none, some, List, [], ◌∷◌, map, Text,
  codes, All, eqb, has, has-filter, starts_with, arith, if◌then◌else◌, is_some, done, split, strip,
  Bool-cases, inl, inr,
}
use wiregui.Base.Distinct.{Distinct, filter-Distinct, add-Distinct}
use wiregui.Nft.{Nftables, View, update, rules_or_empty, any_refers}
use wiregui.Nft.{flush_chain, add_rule}
use wiregui.Firewall.Names.{user_chain_name, chains_in, chain_of_line, list_user_chains}
use wiregui.Firewall.Batch.{
  Entry, forward, concat, user_commands, entry_chain, chain_rules, forward_jumps, delete_commands,
  orphaned_chains, rebuild_all_rules,
}
use wiregui.Firewall.Runs.{Runs-append, update_self}
use wiregui.Firewall.Jumps.{any_refers-chain_rules, forward_jumps-resolve, any_refers-forward_jumps}
use wiregui.Firewall.Rebuild.{
  with_user, free-update, with_users, with_users_lem, with_users-is_some, without_chains,
  without_chains_lem, rules_for, is_some-rules_for, Accepted, Runs-users, Runs-refilled,
  Runs-deletes,
}

abbrev pub user_prefix : Text
user_prefix = codes "user_"

-- The view after a rebuild: the jumps of all entries, the chains of the entries, no other user
-- chain, and every other chain as it was.
abbrev pub rebuilt_view : List Entry → View → View
rebuilt_view es v c = if eqb forward c then some (forward_jumps es) else elim (rules_for es c) [
  | some rs ↦ some rs
  | none ↦ if starts_with user_prefix c then none else v c
]

chain_of_line-Distinct :
    (found : List Text) (line : Text) → Distinct found → Distinct (chain_of_line found line)
unfolding chain_of_line
chain_of_line-Distinct found line h =
    elim (Bool-cases (starts_with (codes "chain user_") (strip line))) [
      | inl chain ↦ rw chain (add-Distinct _ found h)
      | inr other ↦ rw other h
    ]

chains_in-Distinct : (found lines : List Text) → Distinct found → Distinct (chains_in found lines)
unfolding chains_in
chains_in-Distinct found [] h = h
chains_in-Distinct found (line ∷ lines) h =
    chains_in-Distinct (chain_of_line found line) lines (chain_of_line-Distinct found line h)

pub list_user_chains-Distinct : (o : Option Text) → Distinct (list_user_chains o)
unfolding list_user_chains
list_user_chains-Distinct none = tt
list_user_chains-Distinct (some output) = chains_in-Distinct [] (split 10 output) tt

pub user-ne-forward : (c : Text) → starts_with user_prefix c ≡ true → eqb forward c ≡ false
user-ne-forward [] h = refl
user-ne-forward (x ∷ c) h = ground arith

pub starts_with-user_chain_name : (u : Text) → starts_with user_prefix (user_chain_name u) ≡ true
unfolding user_chain_name
starts_with-user_chain_name u = refl

with_users-free :
    (v : View) (es : List Entry) (c d : Text)
    → any_refers c (rules_or_empty (v d)) ≡ false
    → any_refers c (rules_or_empty (with_users v es d)) ≡ false
with_users-free v [] c d h = h
with_users-free v (e ∷ es) c d h =
    with_users-free (with_user v e) es c d
      (free-update v (entry_chain e) d (some (chain_rules e)) c (any_refers-chain_rules c e) h)

with_users-names :
    (v : View) (es : List Entry) → All (λ e. is_some (with_users v es (entry_chain e)) ≡ true) es
with_users-names v [] = tt
with_users-names v (e ∷ es) = (
  with_users-is_some (with_user v e) es (entry_chain e)
      (rw (update_self v (entry_chain e) (some (chain_rules e)))),
  with_users-names (with_user v e) es,
)

module _ (n : Nftables) where
  open n use {Ruleset, chain, list_table}

  -- What a rebuild relies on: the base chain is there, the listing is of the user chains of the
  -- table, only the forward chain holds jumps, and the tool can read the rules.
  pub record IsReady (es : List Entry) (s : Ruleset) : Type 0 where
    pub forward_there : is_some (chain s forward) ≡ true
    pub listed :
        (c : Text)
        → has c (list_user_chains (list_table s))
          ≡ (starts_with user_prefix c && is_some (chain s c))
    pub no_stray :
        (c d : Text) → eqb forward d ≡ false → any_refers c (rules_or_empty (chain s d)) ≡ false
    pub rules_accepted : All (λ e. Accepted n (chain_rules e)) es
    pub jumps_accepted : Accepted n (forward_jumps es)

  -- What is deleted: user chains that are there and that no entry expects.
  orphan_facts :
      (es : List Entry) (s : Ruleset) (c : Text)
      → IsReady es s
      → has c (orphaned_chains (list_user_chains (list_table s)) es) ≡ true
      → (has c (map entry_chain es) ≡ false)
        × (starts_with user_prefix c ≡ true)
        × (is_some (chain s c) ≡ true)
  unfolding orphaned_chains
  orphan_facts es s c ready h = ground (
    arith,
    has-filter c (λ d. not (has d (map entry_chain es))) (list_user_chains (list_table s)),
    ready.listed c,
  )

  module _ (es : List Entry) (s : Ruleset) (ready : IsReady es s) where
    abbrev users_view : View
    users_view = with_users (chain s) es

    abbrev forward_view : View
    forward_view = update users_view forward (some (forward_jumps es))

    abbrev orphans : List Text
    orphans = orphaned_chains (list_user_chains (list_table s)) es

    -- The view that the batch leaves is the one of the specification.
    batch_view : (c : Text) → without_chains forward_view orphans c ≡ rebuilt_view es (chain s) c
    unfolding orphaned_chains
    batch_view c =
        without_chains_lem forward_view orphans c
        ∙ ground (
          arith,
          has-filter c (λ d. not (has d (map entry_chain es))) (list_user_chains (list_table s)),
          ready.listed c,
          is_some-rules_for es c,
          with_users_lem (chain s) es c,
          user-ne-forward c,
        )

    orphans-Distinct : Distinct orphans
    unfolding orphaned_chains
    orphans-Distinct =
        filter-Distinct (λ c. not (has c (map entry_chain es))) (list_user_chains (list_table s))
          (list_user_chains-Distinct (list_table s))

    orphan_there : (c : Text) → has c orphans ≡ true → is_some (forward_view c) ≡ true
    orphan_there c h =
        let (_, user, there) = orphan_facts es s c ready h in
        rw (user-ne-forward c user) (with_users-is_some (chain s) es c (rw there))

    orphan_free :
        (c d : Text) → has c orphans ≡ true → any_refers c (rules_or_empty (forward_view d)) ≡ false
    orphan_free c d h = elim (Bool-cases (eqb forward d)) [
      | inl same ↦ rw same (any_refers-forward_jumps c es (orphan_facts es s c ready h).0)
      | inr other ↦ rw other (with_users-free (chain s) es c d (ready.no_stray c d other))
    ]

    -- From a ruleset that is ready for it, the rebuild succeeds. The forward chain then holds the
    -- jumps of the entries in their order, the chain of each entry its rules by their priorities,
    -- every other user chain is gone, and all other chains are as before.
    pub rebuild_all_rules_lem :
        (s' : Ruleset) × (rebuild_all_rules n es s ≡ done s')
        × (chain s' ≡ rebuilt_view es (chain s))
    unfolding rebuild_all_rules
    rebuild_all_rules_lem =
        let (s', ran, eq) =
          Runs-append n (concat (map user_commands es)) _ s users_view _
            (Runs-users n es s (chain s) refl ready.rules_accepted)
            λ s1 eq1.
              Runs-append n (flush_chain forward ∷ map (add_rule forward) (forward_jumps es))
                (concat (map delete_commands orphans)) s1 forward_view _
                (Runs-refilled n forward (forward_jumps es) s1 users_view eq1
                  (with_users-is_some (chain s) es forward (rw ready.forward_there))
                  ready.jumps_accepted
                  (forward_jumps-resolve users_view es (with_users-names (chain s) es)))
                λ s2 eq2.
                  Runs-deletes n orphans s2 forward_view eq2 orphans-Distinct orphan_there
                    orphan_free in
        (s', ran, eq ∙ fun_ext batch_view)
