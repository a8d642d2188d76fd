-- ===== src/Reconcile/Startup.antt =====
-- `reconcile`, `_reconcile_firewall` and `_reconcile_routes` of wiregui/tasks/reconcile.py. Python
-- gives no order for the members of a set; here they come in the order in which they went in.
use wiregui.Base.{
  Option, none, some, List, [], ◌∷◌, map, Text, add, eqb, if◌then◌else◌, truthy, text_or_empty,
}
use wiregui.Settings.{Settings}
use wiregui.Models.{Device, Rule}
use wiregui.Database.{Database, devices_of, rules_of, order_rules}
use wiregui.Nft.{Nftables}
use wiregui.Host.{Host}
use wiregui.Firewall.{Entry, rebuild_all_rules}
use wiregui.Wireguard.{PeerInfo, get_peers, minus, sync_routes}
use wiregui.Events.{
  World, addresses_of, filter_rule_of, all_relay_subnets, try_add_peer, try_remove_peer, or_ruleset,
}

-- `{d.public_key for d in devices}`, and the same of peers.
unfoldable pub device_keys : List Device → List Text
device_keys [] = []
device_keys (d ∷ ds) = add d.public_key (device_keys ds)

unfoldable pub peer_keys : List PeerInfo → List Text
peer_keys [] = []
peer_keys (p ∷ ps) = add p.public_key (peer_keys ps)

-- `device_map`: of two devices with one key, the later.
abbrev pub or_earlier : Option Device → Device → Text → Option Device
or_earlier (some e) d k = some e
or_earlier none d k = if eqb d.public_key k then some d else none

abbrev pub device_map : List Device → Text → Option Device
device_map [] k = none
device_map (d ∷ ds) k = or_earlier (device_map ds k) d k

owners_of_devices : List Text → List Device → List Text
owners_of_devices found [] = found
owners_of_devices found (d ∷ ds) = owners_of_devices (add d.user_id found) ds

abbrev add_owner : Option Text → List Text → List Text
add_owner o found = if truthy o then add (text_or_empty o) found else found

owners_of_rules : List Text → List Rule → List Text
owners_of_rules found [] = found
owners_of_rules found (r ∷ rs) = owners_of_rules (add_owner r.user_id found) rs

-- The users that have a device or a rule.
unfoldable pub owners : List Device → List Rule → List Text
unfolding owners_of_devices owners_of_rules
owners devices rules = owners_of_rules (owners_of_devices [] devices) rules

-- The entry of one user; the rules come in the order of the query.
abbrev pub entry_of : List Device → List Rule → Text → Entry
entry_of devices rules user_id = record {
  user_id = user_id;
  devices = map addresses_of (devices_of user_id devices);
  rules = map filter_rule_of (rules_of user_id rules);
}

unfoldable pub all_entries : List Device → List Rule → List Entry
unfolding owners
all_entries devices rules = map (entry_of devices rules) (owners devices rules)

module _ (settings : Settings) (n : Nftables) (h : Host settings.wg_interface) where
  abbrev pub add_mapped : Option Device → h.State → h.State
  add_mapped none s = s
  add_mapped (some d) s = try_add_peer settings n h d s

  -- The loop that adds the missing peers; an error is logged.
  unfoldable pub add_missing : List Device → List Text → h.State → h.State
  unfolding try_add_peer
  add_missing devices [] s = s
  add_missing devices (k ∷ ks) s = add_missing devices ks (add_mapped (device_map devices k) s)

  unfoldable pub remove_orphans : List Text → h.State → h.State
  unfolding try_remove_peer
  remove_orphans [] s = s
  remove_orphans (k ∷ ks) s = remove_orphans ks (try_remove_peer settings n h k s)

  -- The part of `reconcile` that sets the peers.
  unfoldable pub reconcile_peers : List Device → List PeerInfo → h.State → h.State
  unfolding add_missing remove_orphans device_keys peer_keys
  reconcile_peers devices current s =
      let to_add = minus (device_keys devices) (peer_keys current) in
      let to_remove = minus (peer_keys current) (device_keys devices) in
      remove_orphans to_remove (add_missing devices to_add s)

  unfoldable pub reconcile_firewall : List Device → List Rule → n.Ruleset → n.Ruleset
  unfolding rebuild_all_rules all_entries
  reconcile_firewall devices rules s =
      or_ruleset settings n h s (rebuild_all_rules n (all_entries devices rules) s)

  unfoldable pub reconcile_routes : List Device → h.State → h.State
  unfolding all_relay_subnets sync_routes
  reconcile_routes devices s = sync_routes settings h (all_relay_subnets devices) s

  -- `reconcile` once the dump is read, or, at `none`, could not be.
  unfoldable pub reconcile_with :
      Database → World settings n h → Option (List PeerInfo) → Option (World settings n h)
  unfolding order_rules reconcile_peers reconcile_firewall reconcile_routes
  reconcile_with db w none = none
  reconcile_with db w (some current) = some (record {
    host = reconcile_routes db.devices (reconcile_peers db.devices current w.host);
    firewall = reconcile_firewall db.devices (order_rules db.rules) w.firewall;
  })

  -- A dump that cannot be read is the only error that ends `reconcile`.
  unfoldable pub reconcile : Database → World settings n h → Option (World settings n h)
  unfolding get_peers reconcile_with
  reconcile db w = reconcile_with db w (get_peers settings h w.host)
