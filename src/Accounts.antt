-- ===== src/Accounts.antt =====
-- wiregui/services/users.py: the end of an account, in the database and on the host.
use wiregui.Base.{List, [], ◌∷◌, Text}
use wiregui.Settings.{Settings}
use wiregui.Models.{Device}
use wiregui.Database.{Database, devices_of, delete_user_row}
use wiregui.Nft.{Nftables}
use wiregui.Host.{Host}
use wiregui.Events.{World, on_device_deleted}
pub mod Cleanup

module _ (settings : Settings) (n : Nftables) (h : Host settings.wg_interface) where
  -- The loop over the devices, which were read before the user was deleted.
  unfoldable pub delete_devices : Database → List Device → World settings n h → World settings n h
  unfolding on_device_deleted
  delete_devices db [] w = w
  delete_devices db (d ∷ ds) w = delete_devices db ds (on_device_deleted settings n h db d w)

  unfoldable pub delete_user_and_cleanup :
      Text → Database → World settings n h → Database × World settings n h
  unfolding delete_devices delete_user_row
  delete_user_and_cleanup user_id db w =
      let db' = delete_user_row user_id db in
      (db', delete_devices db' (devices_of user_id db.devices) w)
