-- ===== src/Examples/Peers.antt =====
-- Examples for the peers and the routes of the interface.
use wiregui.Base.{
  ◌≡◌, refl, Bool, true, false, ◌&&◌, ◌||◌, none, some, List, [], ◌∷◌, Text, codes, eqb, has,
  is_some, arith, if◌then◌else◌, Bool-cases, inl, inr,
}
use wiregui.Database.{delete_user_row, devices_of, find}
use wiregui.Nft.Table.{table_nft}
use wiregui.Host.{Host}
use wiregui.Host.Memory.{Memory, memory_host, relay, lookup, routes_of}
use wiregui.Wireguard.{
  PeerInfo, get_peers, sync_routes, normalized_set, protected_networks, get_interface_routes,
}
use wiregui.Wireguard.Converge.{IsSyncable, sync_routes_lem}
use wiregui.Events.{World, all_relay_subnets}
use wiregui.Reconcile.{peer_keys}
use wiregui.Accounts.{delete_user_and_cleanup}
use wiregui.Accounts.Cleanup.{delete_user_and_cleanup_lem}
use wiregui.Tasks.{expire_sessions}
use wiregui.Tasks.Expiry.{expire_sessions_lem}
use wiregui.Examples.Samples.{sample_settings, sample_db, sample_configuration}
use wiregui.Examples.Chains.{chains_before}

abbrev pub wg0 : Host (codes "wg0")
wg0 = memory_host (codes "wg0")

-- One peer that is expected, and one that is not.
abbrev pub memory_before : Memory
memory_before = record {
  table =
      (codes "K1", some (codes "10.3.2.2/32" ∷ []))
      ∷ ((codes "KX", some (codes "10.3.2.9/32" ∷ [])) ∷ []);
  routed = false;
}

abbrev relays : List Text
relays = relay ∷ []

routes_listed :
    (b : Bool) (t : _) (k : Text)
    → has k (get_interface_routes sample_settings wg0 (record { table = t; routed = b }))
      ≡ (eqb relay k && b)
unfolding get_interface_routes
routes_listed true t k = ground arith
routes_listed false t k = ground arith

pub memory-IsSyncable : (m : Memory) → IsSyncable sample_settings wg0 relays m
unfolding normalized_set
memory-IsSyncable m = record {
  listed = routes_listed m.routed m.table;
  adds = λ k h. ground arith;
  removes = λ k h. ground arith;
}

sync_routes_lem_example :
    (lookup (sync_routes sample_settings wg0 relays memory_before).table
      ≡ lookup memory_before.table)
    × ((j : Text)
        → routes_of (sync_routes sample_settings wg0 relays memory_before) j ≡ (
            has j (normalized_set relays)
            || (routes_of memory_before j && has j (protected_networks sample_settings wg0))))
sync_routes_lem_example =
    sync_routes_lem sample_settings wg0 relays memory_before (memory-IsSyncable memory_before)

abbrev world_before : World sample_settings table_nft wg0
world_before = record { host = memory_before; firewall = chains_before }

abbrev peer_with : Text → Text → PeerInfo
peer_with key ip = record {
  public_key = key;
  endpoint = none;
  allowed_ips = ip ∷ [];
  latest_handshake = none;
  rx_bytes = 0;
  tx_bytes = 0;
}

abbrev pub current_peers : List PeerInfo
current_peers =
    peer_with (codes "K1") (codes "10.3.2.2/32")
    ∷ (peer_with (codes "KX") (codes "10.3.2.9/32") ∷ [])

pub dump_read : get_peers sample_settings wg0 memory_before ≡ some current_peers
unfolding get_peers
dump_read = refl

pub keys_listed :
    (k : Text) → has k (peer_keys current_peers) ≡ is_some (lookup memory_before.table k)
unfolding peer_keys
keys_listed k = elim (Bool-cases (eqb (codes "K1") k)) [
  | inl first ↦ ground arith
  | inr other ↦ ground arith
]

delete_user_and_cleanup_lem_example :
    (find
        (λ u. u.id)
        (codes "b")
        (delete_user_and_cleanup sample_settings table_nft wg0
          (codes "b")
          sample_db
          world_before).0.users
      ≡ none)
    × (devices_of
          (codes "b")
          (delete_user_and_cleanup sample_settings table_nft wg0
            (codes "b")
            sample_db
            world_before).0.devices
        ≡ [])
    × ((j : Text)
        → lookup
            (delete_user_and_cleanup sample_settings table_nft wg0
              (codes "b")
              sample_db
              world_before).1.host.table
            j
          ≡ (if has j (codes "K2" ∷ []) then none else lookup memory_before.table j))
unfolding delete_user_row all_relay_subnets
delete_user_and_cleanup_lem_example =
    delete_user_and_cleanup_lem sample_settings table_nft wg0 (codes "b") sample_db world_before
      refl (λ k h. refl) memory-IsSyncable

abbrev no_ids : Text → Text
no_ids k = k

expire_sessions_lem_example :
    lookup
      (expire_sessions sample_settings table_nft wg0 no_ids 950 sample_db
        (memory_before, [])).0.table
      (codes "K1")
    ≡ none
expire_sessions_lem_example =
    expire_sessions_lem sample_settings table_nft wg0 no_ids 950 sample_configuration sample_db
      (memory_before, []) refl (λ k h. refl) (codes "K1")
