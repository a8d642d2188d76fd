-- ===== src/Events/Isolation.antt =====
-- The rebuild of one user's chain, `_rebuild_user_chain` of wiregui/services/events.py, from the
-- rows of the database.
use mathlib.Core.List.{Perm}
use mathlib.Core.List.Perm
use wiregui.Base.{
  ◌≡◌, refl, ap, ◌∙◌, none, some, List, [], ◌∷◌, ◌++◌, map, append-nil, filter, Text, eqb,
  starts_with, arith, if◌then◌else◌, Bool-cases, inl, inr,
}
use wiregui.Settings.{Settings}
use wiregui.Models.{Rule, Device}
use wiregui.Database.{Database, owned_by, devices_of, rule_le, insert_ordered, order_rules}
use wiregui.Nft.{Nftables, View, RuleExpr}
use wiregui.Host.{Host}
use wiregui.Firewall.{
  FilterRule, forward, concat, jump_rules, forward_jumps, entry_jumps, user_chain_name,
}
use wiregui.Firewall.Sorted.{InOrder}
use wiregui.Firewall.Ordered.{text_of, chain_rules_lem}
use wiregui.Firewall.Reconciled.{IsReady, user_prefix, rebuild_all_rules_lem}
use wiregui.Events.Handlers.{addresses_of, filter_rule_of, user_entry, rebuild_user_chain}

insert_ordered-perm : (r : Rule) (rs : List Rule) → Perm (insert_ordered r rs) (r ∷ rs)
unfolding insert_ordered
insert_ordered-perm r [] = Perm.refl (r ∷ [])
insert_ordered-perm r (s ∷ rs) = elim (Bool-cases (rule_le r s)) [
  | inl le ↦ rw (le, insert_ordered) (Perm.refl _)
  | inr gt ↦ rw gt (Perm.trans (Perm.cons s (insert_ordered-perm r rs)) (Perm.swap r s rs))
]

order_rules-perm : (rs : List Rule) → Perm (order_rules rs) rs
unfolding order_rules
order_rules-perm [] = Perm.refl []
order_rules-perm (r ∷ rs) =
    Perm.trans (insert_ordered-perm r (order_rules rs)) (Perm.cons r (order_rules-perm rs))

-- The jumps to the user's chain from every device of the user, in the order of the rows.
abbrev pub jumps_of : Database → Text → List RuleExpr
unfolding jump_rules
jumps_of db user_id = concat (
    map (λ d. jump_rules (user_chain_name user_id) (addresses_of d))
      (filter (λ d. eqb d.user_id user_id) db.devices))

map-map :
    (chain : Text) (ds : List Device)
    → concat (map (jump_rules chain) (map addresses_of ds))
      ≡ concat (map (λ d. jump_rules chain (addresses_of d)) ds)
map-map chain [] = refl
map-map chain (d ∷ ds) = ap (λ js. jump_rules chain (addresses_of d) ++ js) (map-map chain ds)

module _ (settings : Settings) (n : Nftables) (h : Host settings.wg_interface) where
  -- From a ruleset that is ready for it, after `_rebuild_user_chain` the chain of the user holds a
  -- line for each rule of the user in the database and nothing else, in the order of the
  -- priorities. The forward chain holds the jumps of the user's devices and no others, every other
  -- user's chain is gone, and all other chains are as before.
  pub rebuild_user_chain_lem :
      (db : Database) (user_id : Text) (s : n.Ruleset)
      → IsReady n (user_entry db user_id ∷ []) s
      → (rs : List FilterRule) × InOrder rs
        × Perm rs (map filter_rule_of (filter (λ r. owned_by user_id r.user_id) db.rules))
        × ((c : Text)
            → n.chain (rebuild_user_chain settings n h db user_id s) c ≡ (
                if eqb forward c
                then some (jumps_of db user_id)
                else if eqb (user_chain_name user_id) c
                then some (map text_of rs)
                else if starts_with user_prefix c
                then none
                else n.chain s c))
  unfolding rebuild_user_chain user_entry forward_jumps entry_jumps
  rebuild_user_chain_lem db user_id s ready =
      let e = user_entry db user_id in
      let (rs, lines, sorted, all, stable) = chain_rules_lem e in
      let (s', ran, eq) = rebuild_all_rules_lem n (e ∷ []) s ready in
      let jumps : forward_jumps (e ∷ []) ≡ jumps_of db user_id =
        append-nil (entry_jumps e)
        ∙ map-map (user_chain_name user_id) (devices_of user_id db.devices) in
      (
        rs,
        sorted,
        Perm.trans all (Perm.map filter_rule_of (order_rules-perm _)),
        λ c.
            rw (ran, rebuild_user_chain) (ap (λ (v : View). v c) eq ∙ ground (arith, jumps, lines)),
      )
