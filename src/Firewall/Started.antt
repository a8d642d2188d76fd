-- ===== src/Firewall/Started.antt =====
-- The ruleset after `setup_base_tables` and `setup_masquerade` of wiregui/services/firewall.py, on
-- a host that has no chain yet.
use wiregui.Base.{
  ◌≡◌, refl, sym, subst, eqb-eq, done-eq, ap, ◌∙◌, false, ◌&&◌, none, some, List, [], Text, All,
  eqb, has, starts_with, arith, is_some, done, Bool-cases, inl, inr,
}
use wiregui.Settings.{Settings}
use wiregui.Nft.{Nftables, View, update, rules_or_empty, any_refers}
use wiregui.Firewall.Names.{list_user_chains}
use wiregui.Firewall.Batch.{Entry, forward, chain_rules, forward_jumps, nft_batch}
use wiregui.Firewall.Ops.{
  postrouting, forward_hook, postrouting_hook, base_commands, masquerade_rules, masquerade_commands,
  setup_base_tables, setup_masquerade,
}
use wiregui.Firewall.Rebuild.{Accepted, Runs-refilled}
use wiregui.Firewall.Policies.{log_failure-Runs}
use wiregui.Firewall.Reconciled.{IsReady, user_prefix}

abbrev pub no_chains : View
no_chains c = none

-- The two base chains, without rules.
abbrev pub base_view : View
base_view = update (update no_chains forward (some [])) postrouting (some [])

-- The base chains, with the masquerade rules.
abbrev pub masquerade_view : Settings → View
masquerade_view settings =
    update base_view postrouting (some (masquerade_rules settings settings.wg_interface))

module _ (n : Nftables) where
  open n use {Ruleset, chain, add_table_law, add_base_chain_law, list_table}

  setup_base_tables_lem :
      (s : Ruleset)
      → chain s ≡ no_chains
      → (s' : Ruleset) × (setup_base_tables n s ≡ done s') × (chain s' ≡ base_view)
  unfolding setup_base_tables base_commands nft_batch
  setup_base_tables_lem s fresh =
      let (s1, ran1, eq1) = add_table_law s in
      let (s2, ran2, eq2) =
        add_base_chain_law forward forward_hook s1
          (ap (λ (v : View). is_some (v forward)) (eq1 ∙ fresh)) in
      let view2 : chain s2 ≡ update no_chains forward (some []) =
        eq2 ∙ ap (λ (v : View). update v forward (some [])) (eq1 ∙ fresh) in
      let (s3, ran3, eq3) =
        add_base_chain_law postrouting postrouting_hook s2
          (ap (λ (v : View). is_some (v postrouting)) view2) in
      (
        s3,
        rw (ran1, ran2, ran3) refl,
        eq3 ∙ ap (λ (v : View). update v postrouting (some [])) view2,
      )

  module _ (settings : Settings) where
    abbrev pub MasqueradeAccepted : Type 0
    MasqueradeAccepted = Accepted n (masquerade_rules settings settings.wg_interface)

    setup_masquerade_lem :
        (s : Ruleset)
        → chain s ≡ base_view
        → MasqueradeAccepted
        → chain (setup_masquerade n settings s) ≡ masquerade_view settings
    unfolding setup_masquerade masquerade_commands masquerade_rules
    setup_masquerade_lem s same ok =
        log_failure-Runs n (masquerade_commands settings settings.wg_interface) s _ (
          Runs-refilled n postrouting (masquerade_rules settings settings.wg_interface) s base_view
            same refl ok (refl, (refl, tt)))

    -- Nothing jumps anywhere before the first rebuild.
    masquerade_view-free :
        (c d : Text) → any_refers c (rules_or_empty (masquerade_view settings d)) ≡ false
    unfolding masquerade_rules
    masquerade_view-free c d = elim (Bool-cases (eqb postrouting d)) [
      | inl same ↦ rw same refl
      | inr other ↦ rw other (elim (Bool-cases (eqb forward d)) [
        | inl first ↦ rw first refl
        | inr apart ↦ rw apart refl
      ])
    ]

    -- The ruleset that the setup leaves is ready for the first rebuild.
    pub setup_masquerade-IsReady :
        (es : List Entry) (s s' : Ruleset)
        → chain s ≡ no_chains
        → setup_base_tables n s ≡ done s'
        → ((c : Text)
            → has c (list_user_chains (list_table (setup_masquerade n settings s'))) ≡ false)
        → MasqueradeAccepted
        → All (λ e. Accepted n (chain_rules e)) es
        → Accepted n (forward_jumps es)
        → (chain (setup_masquerade n settings s') ≡ masquerade_view settings)
          × IsReady n es (setup_masquerade n settings s')
    setup_masquerade-IsReady es s s' fresh ran unlisted ok rules jumps =
        let (t, ran_t, view_t) = setup_base_tables_lem s fresh in
        let view = setup_masquerade_lem s' (ap chain (done-eq (sym ran ∙ ran_t)) ∙ view_t) ok in
        (
          view,
          record {
            forward_there = ap (λ (v : View). is_some (v forward)) view;
            listed = λ c.
                (unlisted c
                  ∙ sym (
                      ap (λ (v : View). starts_with user_prefix c && is_some (v c)) view
                      ∙ no_user c));
            no_stray = λ c d other.
                (ap (λ (v : View). any_refers c (rules_or_empty (v d))) view
                  ∙ masquerade_view-free c d);
            rules_accepted = rules;
            jumps_accepted = jumps;
          },
        )
      where
        no_user :
            (c : Text) → (starts_with user_prefix c && is_some (masquerade_view settings c)) ≡ false
        no_user c = elim (Bool-cases (eqb postrouting c)) [
          | inl same ↦
              subst
                (λ d. (starts_with user_prefix d && is_some (masquerade_view settings d)) ≡ false)
                (eqb-eq postrouting c same) refl
          | inr other ↦ rw other (elim (Bool-cases (eqb forward c)) [
            | inl first ↦
                subst
                  (λ d.
                    (starts_with user_prefix d && is_some (update no_chains forward (some []) d))
                    ≡ false)
                  (eqb-eq forward c first) refl
            | inr apart ↦ rw apart (ground arith)
          ])
        ]
