-- ===== src/Ordering/Editor.antt =====
-- The handlers of wiregui/pages/admin/rules.py that create, edit and delete a rule, and the
-- switches of the network policies.
use wiregui.Base.{
  ℕ, Bool, Option, none, some, List, ◌∷◌, Text, codes, eqb, strip, length, ◌==◌, if◌then◌else◌,
}
use wiregui.Base.Int.{ℤ}
use wiregui.Settings.{Settings}
use wiregui.Models.{Rule, Configuration}
use wiregui.Database.{Database, find, put_row, delete_row}
use wiregui.Nft.{Nftables}
use wiregui.Host.{Host}
use wiregui.Firewall.{apply_peer_to_peer_policy, apply_lan_to_peers_policy}
use wiregui.Events.{World, on_rule_created, on_rule_updated, on_rule_deleted, on_rules_reordered}
use wiregui.Ordering.Priorities.{next_priority, persist_order, drop_on}

-- The inputs of the two dialogs.
pub record RuleForm : Type 0 where
  pub action : Text
  pub destination : Text
  pub port_type : Text
  pub port_range : Text
  pub priority : Option ℤ
  pub user : Text

-- `value if value != word else None`, and `value.strip() or None`.
abbrev pub unless : Text → Text → Option Text
unless word value = if eqb value word then none else some value

abbrev pub stripped_or_none : Text → Option Text
stripped_or_none value = if length (strip value) == 0 then none else some (strip value)

abbrev priority_or : Option ℤ → ℤ → ℤ
priority_or none old = old
priority_or (some new) old = new

unfoldable pub rule_of_form : Text → ℕ → ℤ → RuleForm → Rule
rule_of_form id now priority form = record {
  id = id;
  action = form.action;
  destination = strip form.destination;
  port_type = unless (codes "any") form.port_type;
  port_range = stripped_or_none form.port_range;
  priority = priority;
  user_id = unless (codes "global") form.user;
  inserted_at = now;
  updated_at = now;
}

unfoldable pub edited_rule : RuleForm → Rule → Rule
edited_rule form r = record r {
  action = form.action;
  destination = strip form.destination;
  port_type = unless (codes "any") form.port_type;
  port_range = stripped_or_none form.port_range;
  priority = priority_or form.priority r.priority;
  user_id = unless (codes "global") form.user;
}

abbrev pub with_peer_to_peer : Bool → ℕ → Option Configuration → Option Configuration
with_peer_to_peer enabled now none = none
with_peer_to_peer enabled now (some c) =
    some (record c { allow_peer_to_peer = enabled; updated_at = now })

abbrev pub with_lan_to_peers : Bool → ℕ → Option Configuration → Option Configuration
with_lan_to_peers enabled now none = none
with_lan_to_peers enabled now (some c) =
    some (record c { allow_lan_to_peers = enabled; updated_at = now })

module _ (settings : Settings) (n : Nftables) (h : Host settings.wg_interface) where
  abbrev Edit : Type 0
  Edit = Database × World settings n h → Database × World settings n h

  -- `create_rule`; without a destination nothing happens.
  unfoldable pub create_rule_from : Text → ℕ → RuleForm → Edit
  unfolding rule_of_form next_priority on_rule_created
  create_rule_from id now form (db, w) =
      if length (strip form.destination) == 0
      then (db, w)
      else (let rule =
            rule_of_form id now (next_priority (unless (codes "global") form.user) db.rules) form in
          let db' = record db { rules = rule ∷ db.rules } in
          (db', on_rule_created settings n h db' rule w))

  -- `save_edit`
  unfoldable pub save_edit : Text → RuleForm → Edit
  unfolding find put_row edited_rule on_rule_updated
  save_edit rule_id form (db, w) = elim (find (λ r. r.id) rule_id db.rules) [
    | none ↦ (db, w)
    | some r ↦
        (let rule = edited_rule form r in
          let db' = record db { rules = put_row (λ q. q.id) rule db.rules } in
          (db', on_rule_updated settings n h db' rule w))
  ]

  unfoldable pub delete_rule_row : Text → Edit
  unfolding find delete_row on_rule_deleted
  delete_rule_row rule_id (db, w) = elim (find (λ r. r.id) rule_id db.rules) [
    | none ↦ (db, w)
    | some r ↦
        (let db' = record db { rules = delete_row (λ q. q.id) r.id db.rules } in
          (db', on_rule_deleted settings n h db' r w))
  ]

  abbrev pub store_order : ℕ → Text → Option (List Text) → Edit
  store_order now user_id none (db, w) = (db, w)
  store_order now user_id (some order) (db, w) =
      (let db' = record db { rules = persist_order now order db.rules } in
        (db', on_rules_reordered settings n h db' user_id w))

  -- `do_drop` while the rules of one user are shown; a drop on the rule itself does nothing.
  unfoldable pub do_drop : ℕ → Text → Text → Text → List Text → Edit
  unfolding drop_on persist_order on_rules_reordered
  do_drop now user_id src target order (db, w) =
      if eqb src target then (db, w) else store_order now user_id (drop_on src target order) (db, w)

  -- The switches of the network policies. The row is written where there is one, and the policy is
  -- applied in any case.
  unfoldable pub toggle_peer_to_peer : Bool → ℕ → Edit
  unfolding apply_peer_to_peer_policy
  toggle_peer_to_peer enabled now (db, w) = (
    record db { configuration = with_peer_to_peer enabled now db.configuration },
    record w { firewall = apply_peer_to_peer_policy n settings enabled w.firewall },
  )

  unfoldable pub toggle_lan_to_peers : Bool → ℕ → Edit
  unfolding apply_lan_to_peers_policy
  toggle_lan_to_peers enabled now (db, w) = (
    record db { configuration = with_lan_to_peers enabled now db.configuration },
    record w { firewall = apply_lan_to_peers_policy n settings enabled w.firewall },
  )
