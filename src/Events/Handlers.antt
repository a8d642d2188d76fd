-- ===== src/Events/Handlers.antt =====
-- The handlers of wiregui/services/events.py. An error of a tool is logged, and the handler goes
-- on with the state at the error.
use wiregui.Base.{
  Option, none, some, List, [], ◌∷◌, ◌++◌, map, Text, codes, add, truthy, text_or_empty, length,
  ◌==◌, if◌then◌else◌, Outcome, done, failed,
}
use wiregui.Settings.{Settings}
use wiregui.Models.{Device, Rule}
use wiregui.Database.{Database, devices_of, rules_of, order_rules}
use wiregui.Nft.{Nftables}
use wiregui.Host.{Host}
use wiregui.Firewall.{
  Entry, DeviceAddresses, FilterRule, rebuild_all_rules, add_user_chain, add_device_jump_rule,
}
use wiregui.Wireguard.{add_peer, remove_peer, add_routes, sync_routes}

-- The peer's addresses with a mask for the one address, then its relay subnets.
abbrev masked : Text → Option Text → List Text
masked mask addr = if truthy addr then (text_or_empty addr ++ mask) ∷ [] else []

unfoldable pub device_allowed_ips : Device → List Text
device_allowed_ips d =
    masked (codes "/32") d.ipv4 ++ (masked (codes "/128") d.ipv6 ++ d.allowed_subnets)

abbrev pub addresses_of : Device → DeviceAddresses
addresses_of d = record { ipv4 = d.ipv4; ipv6 = d.ipv6; allowed_subnets = d.allowed_subnets }

abbrev pub filter_rule_of : Rule → FilterRule
filter_rule_of r = record {
  destination = r.destination;
  action = r.action;
  port_type = r.port_type;
  port_range = r.port_range;
  priority = r.priority;
}

add_all : List Text → List Text → List Text
add_all [] found = found
add_all (k ∷ ks) found = add_all ks (add k found)

relay_subnets_from : List Text → List Device → List Text
unfolding add_all
relay_subnets_from found [] = found
relay_subnets_from found (d ∷ ds) = relay_subnets_from (add_all d.allowed_subnets found) ds

-- `_all_relay_subnets`
unfoldable pub all_relay_subnets : List Device → List Text
unfolding relay_subnets_from
all_relay_subnets devices = relay_subnets_from [] devices

-- The entry of one user, from the rows of the database.
unfoldable pub user_entry : Database → Text → Entry
unfolding order_rules
user_entry db user_id = record {
  user_id = user_id;
  devices = map addresses_of (devices_of user_id db.devices);
  rules = map filter_rule_of (order_rules (rules_of user_id db.rules));
}

module _ (settings : Settings) (n : Nftables) (h : Host settings.wg_interface) where
  -- The states of the two tools.
  pub record World : Type 0 where
    pub host : h.State
    pub firewall : n.Ruleset

  abbrev pub or_logged : h.State → Outcome h.State → h.State
  or_logged s (done s') = s'
  or_logged s (failed e) = s

  abbrev pub or_ruleset : n.Ruleset → Outcome n.Ruleset → n.Ruleset
  or_ruleset s (done s') = s'
  or_ruleset s (failed e) = s

  unfoldable pub try_add_peer : Device → h.State → h.State
  unfolding add_peer device_allowed_ips
  try_add_peer device s =
      or_logged s
        (add_peer settings h device.public_key (device_allowed_ips device) device.preshared_key s)

  -- The chain first, and the jumps only if that has not failed.
  try_add_jumps : Device → n.Ruleset → n.Ruleset
  unfolding add_user_chain add_device_jump_rule
  try_add_jumps device s = elim (add_user_chain n device.user_id s) [
    | failed e ↦ s
    | done s' ↦ or_ruleset s' (add_device_jump_rule n device.user_id (addresses_of device) s')
  ]

  unfoldable pub on_device_created : Device → World → World
  unfolding try_add_peer try_add_jumps add_routes
  on_device_created device w =
      if settings.wg_enabled
      then record {
        host = add_routes settings h device.allowed_subnets (try_add_peer device w.host);
        firewall = try_add_jumps device w.firewall;
      }
      else w

  unfoldable pub try_remove_peer : Text → h.State → h.State
  unfolding remove_peer
  try_remove_peer key s = or_logged s (remove_peer settings h key s)

  -- `db` is the database after the device has been deleted.
  unfoldable pub on_device_deleted : Database → Device → World → World
  unfolding try_remove_peer sync_routes all_relay_subnets
  on_device_deleted db device w =
      if settings.wg_enabled
      then (let s = try_remove_peer device.public_key w.host in
          record w {
            host =
                if length device.allowed_subnets == 0
                then s
                else sync_routes settings h (all_relay_subnets db.devices) s;
          })
      else w

  -- `_rebuild_user_chain`
  unfoldable pub rebuild_user_chain : Database → Text → n.Ruleset → n.Ruleset
  unfolding rebuild_all_rules user_entry
  rebuild_user_chain db user_id s =
      or_ruleset s (rebuild_all_rules n (user_entry db user_id ∷ []) s)

  unfoldable pub on_device_updated : Database → Device → World → World
  unfolding try_add_peer sync_routes all_relay_subnets rebuild_user_chain
  on_device_updated db device w =
      if settings.wg_enabled
      then record {
        host = sync_routes settings h (all_relay_subnets db.devices) (try_add_peer device w.host);
        firewall = rebuild_user_chain db device.user_id w.firewall;
      }
      else w

  abbrev rebuild_owner : Database → Option Text → World → World
  rebuild_owner db none w = w
  rebuild_owner db (some user_id) w = record w {
    firewall = rebuild_user_chain db user_id w.firewall;
  }

  -- A rule without a user is left to the next full rebuild.
  unfoldable pub on_rule_created : Database → Rule → World → World
  unfolding rebuild_user_chain
  on_rule_created db rule w = if settings.wg_enabled then rebuild_owner db rule.user_id w else w

  unfoldable pub on_rule_updated : Database → Rule → World → World
  unfolding rebuild_user_chain
  on_rule_updated db rule w = if settings.wg_enabled then rebuild_owner db rule.user_id w else w

  unfoldable pub on_rule_deleted : Database → Rule → World → World
  unfolding rebuild_user_chain
  on_rule_deleted db rule w = if settings.wg_enabled then rebuild_owner db rule.user_id w else w

  unfoldable pub on_rules_reordered : Database → Text → World → World
  unfolding rebuild_user_chain
  on_rules_reordered db user_id w =
      if settings.wg_enabled then rebuild_owner db (some user_id) w else w
