-- ===== src/Firewall/Policies.antt =====
-- What the policies of wiregui/services/firewall.py leave of the ruleset, and which chains the
-- traffic reaches by the jumps of a rebuild.
use wiregui.Base.{
  ◌≡◌, refl, sym, subst, Bool, ap, ◌∙◌, true, false, List, [], ◌∷◌, some, Text, eqb, eqb-eq, has,
  starts_with, arith, done, done-eq, Bool-cases, inl, inr,
}
use wiregui.Settings.{Settings}
use wiregui.Nft.{Command, RuleExpr, Nftables, View, update, rules_or_empty, any_refers}
use wiregui.Firewall.Batch.{Entry, forward, nft_batch, rebuild_all_rules}
use wiregui.Firewall.Ops.{
  peer_to_peer, lan_to_peers, peer_to_peer_rules, lan_to_peers_rules, policy_commands, log_failure,
  apply_peer_to_peer_policy, apply_lan_to_peers_policy,
}
use wiregui.Firewall.Runs.{Runs}
use wiregui.Firewall.Rebuild.{Accepted, Runs-rewritten}
use wiregui.Firewall.Jumps.{any_refers-forward_jumps}
use wiregui.Firewall.Reconciled.{IsReady, user_prefix, rebuild_all_rules_lem}
use wiregui.Firewall.Stable.{has-entry_chain, rebuilt_view-free}

-- No rule of any chain jumps to the chain.
abbrev pub IsUnreached : View → Text → Type 0
IsUnreached v c = (d : Text) → any_refers c (rules_or_empty (v d)) ≡ false

update-IsUnreached :
    (v : View) (c k : Text) (es : List RuleExpr)
    → any_refers c es ≡ false
    → IsUnreached v c
    → IsUnreached (update v k (some es)) c
update-IsUnreached v c k es none_there h d = ground (arith, h d)

not_user :
    (c : Text)
    → has c (peer_to_peer ∷ (lan_to_peers ∷ [])) ≡ true
    → starts_with user_prefix c ≡ false
not_user c h = elim (Bool-cases (eqb peer_to_peer c)) [
  | inl same ↦ subst (λ d. starts_with user_prefix d ≡ false) (eqb-eq peer_to_peer c same) refl
  | inr other ↦
      subst (λ d. starts_with user_prefix d ≡ false) (eqb-eq lan_to_peers c (ground arith)) refl
]

module _ (n : Nftables) where
  open n use {Ruleset, chain}

  -- After a rebuild nothing jumps to a chain that is not of a user.
  rebuild_all_rules-IsUnreached :
      (es : List Entry) (s s' : Ruleset) (c : Text)
      → IsReady n es s
      → rebuild_all_rules n es s ≡ done s'
      → starts_with user_prefix c ≡ false
      → IsUnreached (chain s') c
  rebuild_all_rules-IsUnreached es s s' c ready ran other d =
      let (t, ran_t, view_t) = rebuild_all_rules_lem n es s ready in
      ap (λ (v : View). any_refers c (rules_or_empty (v d)))
        (ap chain (done-eq (sym ran ∙ ran_t)) ∙ view_t)
      ∙ (elim (Bool-cases (eqb forward d)) [
        | inl same ↦ rw same (any_refers-forward_jumps c es (has-entry_chain c es other))
        | inr apart ↦ rebuilt_view-free es (chain s) c d (ready.no_stray c d apart) apart
      ])

  pub log_failure-Runs :
      (cs : List Command) (s : Ruleset) (v : View)
      → Runs n cs s v
      → chain (log_failure n s (nft_batch n cs s)) ≡ v
  unfolding log_failure
  log_failure-Runs cs s v (s', ran, eq) = rw ran eq

  module _ (settings : Settings) where
    apply_peer_to_peer_policy_lem :
        (enabled : Bool) (s : Ruleset)
        → Accepted n (peer_to_peer_rules settings enabled)
        → chain (apply_peer_to_peer_policy n settings enabled s)
          ≡ update (chain s) peer_to_peer (some (peer_to_peer_rules settings enabled))
    unfolding apply_peer_to_peer_policy peer_to_peer_rules
    apply_peer_to_peer_policy_lem enabled s ok =
        log_failure-Runs (policy_commands peer_to_peer (peer_to_peer_rules settings enabled)) s _
          (Runs-rewritten n peer_to_peer _ s (chain s) refl ok (λ w. (refl, (refl, tt))))

    apply_lan_to_peers_policy_lem :
        (enabled : Bool) (s : Ruleset)
        → Accepted n (lan_to_peers_rules settings enabled)
        → chain (apply_lan_to_peers_policy n settings enabled s)
          ≡ update (chain s) lan_to_peers (some (lan_to_peers_rules settings enabled))
    unfolding apply_lan_to_peers_policy lan_to_peers_rules
    apply_lan_to_peers_policy_lem enabled s ok =
        log_failure-Runs (policy_commands lan_to_peers (lan_to_peers_rules settings enabled)) s _
          (Runs-rewritten n lan_to_peers _ s (chain s) refl ok (λ w. (refl, (refl, tt))))

    -- Once both policies are set after a rebuild, the chain of each holds its two rules and
    -- nothing else, every other chain is as the rebuild left it, and no rule of any chain jumps to
    -- the chain of a policy.
    pub apply_lan_to_peers_policy-apply_peer_to_peer_policy :
        (es : List Entry) (s s' : Ruleset) (peers lan : Bool)
        → IsReady n es s
        → rebuild_all_rules n es s ≡ done s'
        → Accepted n (peer_to_peer_rules settings peers)
        → Accepted n (lan_to_peers_rules settings lan)
        → (chain (
              apply_lan_to_peers_policy n settings lan
                (apply_peer_to_peer_policy n settings peers s'))
            ≡ update
                (update (chain s') peer_to_peer (some (peer_to_peer_rules settings peers)))
                lan_to_peers
                (some (lan_to_peers_rules settings lan)))
          × ((c : Text)
              → has c (peer_to_peer ∷ (lan_to_peers ∷ [])) ≡ true
              → IsUnreached
                  (chain (
                    apply_lan_to_peers_policy n settings lan
                      (apply_peer_to_peer_policy n settings peers s')))
                  c)
    unfolding peer_to_peer_rules lan_to_peers_rules
    apply_lan_to_peers_policy-apply_peer_to_peer_policy es s s' peers lan ready ran ok ok' =
        let before = apply_peer_to_peer_policy n settings peers s' in
        let view =
          apply_lan_to_peers_policy_lem lan before ok'
          ∙ ap (λ v. update v lan_to_peers (some (lan_to_peers_rules settings lan)))
              (apply_peer_to_peer_policy_lem peers s' ok) in
        (
          view,
          λ c policy.
              subst (λ v. IsUnreached v c) (sym view)
                (update-IsUnreached _ c lan_to_peers _ refl (
                  update-IsUnreached (chain s') c peer_to_peer _ refl
                    (rebuild_all_rules-IsUnreached es s s' c ready ran (not_user c policy)))),
        )
