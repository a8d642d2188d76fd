-- ===== src/Accounts/Cleanup.antt =====
-- What is left of a user once `delete_user_and_cleanup` has run.
use wiregui.Base.{
  ◌≡◌, refl, ap, ◌∙◌, Bool, true, false, none, List, [], ◌∷◌, Text, map, has, eqb, length, ◌==◌,
  if◌then◌else◌, arith, Bool-cases, inl, inr,
}
use wiregui.Base.Distinct.{has_first, has_rest}
use wiregui.Settings.{Settings}
use wiregui.Models.{Device, User}
use wiregui.Database.{Database, find, delete_row, devices_of, delete_user_row}
use wiregui.Nft.{Nftables}
use wiregui.Host.{Host, Peers}
use wiregui.Wireguard.{sync_routes}
use wiregui.Wireguard.Converge.{IsSyncable, sync_routes_lem}
use wiregui.Events.{World, on_device_deleted, all_relay_subnets, try_remove_peer}
use wiregui.Reconcile.Converge.{try_remove_peer_lem, Deletes}
use wiregui.Accounts.{delete_devices, delete_user_and_cleanup}

abbrev pub keys_of : List Device → List Text
keys_of ds = map (λ (d : Device). d.public_key) ds

find-delete_row {ℓ} :
    {A : Type ℓ} (key : A → Text) (k : Text) (rs : List A) → find key k (delete_row key k rs) ≡ none
unfolding find delete_row
find-delete_row key k [] = refl
find-delete_row key k (r ∷ rs) = elim (Bool-cases (eqb (key r) k)) [
  | inl gone ↦ rw gone (find-delete_row key k rs)
  | inr kept ↦ rw (kept, kept) (find-delete_row key k rs)
]

devices_of-delete_row :
    (u : Text) (ds : List Device) → devices_of u (delete_row (λ d. d.user_id) u ds) ≡ []
unfolding delete_row
devices_of-delete_row u [] = refl
devices_of-delete_row u (d ∷ ds) = elim (Bool-cases (eqb d.user_id u)) [
  | inl gone ↦ rw gone (devices_of-delete_row u ds)
  | inr kept ↦ rw (kept, kept) (devices_of-delete_row u ds)
]

module _ (settings : Settings) (n : Nftables) (h : Host settings.wg_interface) where
  on_device_deleted_lem :
      (db : Database) (d : Device) (w : World settings n h)
      → settings.wg_enabled ≡ true
      → Deletes settings n h d.public_key
      → ((s : h.State) → IsSyncable settings h (all_relay_subnets db.devices) s)
      → (j : Text)
      → h.peers (on_device_deleted settings n h db d w).host j
        ≡ (if eqb d.public_key j then none else h.peers w.host j)
  unfolding on_device_deleted
  on_device_deleted_lem db d w on ok syncable j =
      let (removed, routes) = try_remove_peer_lem settings n h d.public_key w.host ok in
      rw on (
        maybe_synced (length d.allowed_subnets == 0)
          (try_remove_peer settings n h d.public_key w.host)
        ∙ ap (λ (v : Peers). v j) removed)
    where
      maybe_synced :
          (c : Bool) (s : h.State)
          → h.peers (if c then s else sync_routes settings h (all_relay_subnets db.devices) s) j
            ≡ h.peers s j
      maybe_synced true s = refl
      maybe_synced false s =
          ap (λ (v : Peers). v j)
            (sync_routes_lem settings h (all_relay_subnets db.devices) s (syncable s)).0

  delete_devices_lem :
      (db : Database) (ds : List Device) (w : World settings n h)
      → settings.wg_enabled ≡ true
      → ((k : Text) → has k (keys_of ds) ≡ true → Deletes settings n h k)
      → ((s : h.State) → IsSyncable settings h (all_relay_subnets db.devices) s)
      → (j : Text)
      → h.peers (delete_devices settings n h db ds w).host j
        ≡ (if has j (keys_of ds) then none else h.peers w.host j)
  unfolding delete_devices
  delete_devices_lem db [] w on ok syncable j = refl
  delete_devices_lem db (d ∷ ds) w on ok syncable j =
      delete_devices_lem db ds (on_device_deleted settings n h db d w) on
        (λ k m. ok k (has_rest d.public_key (keys_of ds) k m)) syncable j
      ∙ ap (λ o. if has j (keys_of ds) then none else o)
          (on_device_deleted_lem db d w on (ok d.public_key (has_first d.public_key (keys_of ds)))
            syncable j)
      ∙ ground arith

  -- With WireGuard enabled, where the tools take the commands that come up, after
  -- `delete_user_and_cleanup` the user has no row and no device, and the peers of the user's
  -- devices are gone from the interface, and no others.
  pub delete_user_and_cleanup_lem :
      (user_id : Text) (db : Database) (w : World settings n h)
      → settings.wg_enabled ≡ true
      → ((k : Text)
          → has k (keys_of (devices_of user_id db.devices)) ≡ true
          → Deletes settings n h k)
      → ((s : h.State)
          → IsSyncable settings h (all_relay_subnets (delete_user_row user_id db).devices) s)
      → (find (λ u. u.id) user_id (delete_user_and_cleanup settings n h user_id db w).0.users
          ≡ none)
        × (devices_of user_id (delete_user_and_cleanup settings n h user_id db w).0.devices ≡ [])
        × ((j : Text)
            → h.peers (delete_user_and_cleanup settings n h user_id db w).1.host j ≡ (
                if has j (keys_of (devices_of user_id db.devices)) then none else h.peers w.host j))
  unfolding delete_user_and_cleanup delete_user_row
  delete_user_and_cleanup_lem user_id db w on ok syncable = (
    find-delete_row (λ (u : User). u.id) user_id db.users,
    devices_of-delete_row user_id db.devices,
    delete_devices_lem (delete_user_row user_id db) (devices_of user_id db.devices) w on ok
        syncable,
  )
