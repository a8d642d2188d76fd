-- ===== src/DevicePages/Handlers.antt =====
-- The handlers of wiregui/pages/devices.py and wiregui/pages/admin/devices.py, with
-- `get_server_public_key` of wiregui/utils/server_key.py. A task that is made in the background
-- runs at once.
use wiregui.Base.{
  Bool, true, false, ◌||◌, Option, none, some, ◌∷◌, Text, codes, eqb, strip, length, ◌==◌, truthy,
  if◌then◌else◌, Outcome, done, failed,
}
use wiregui.Settings.{Settings}
use wiregui.Models.{Device, Configuration}
use wiregui.Database.{Database, find, put_row, delete_row}
use wiregui.Nft.{Nftables}
use wiregui.Host.{Host}
use wiregui.Events.{World, on_device_created, on_device_deleted, on_device_updated}
use wiregui.Allocation.{allocate_ipv4, allocate_ipv6}
use wiregui.Api.{Draws}
use wiregui.Client.{build_client_config}
use wiregui.DevicePages.Form.{
  DeviceForm, device_of_form, device_of_admin_form, edited_device, edited_by_admin,
}

-- `none` is the `RuntimeError` of a server without keys.
unfoldable pub get_server_public_key : Option Configuration → Option Text
get_server_public_key none = none
get_server_public_key (some config) =
    if truthy config.server_public_key then config.server_public_key else none

-- Who is signed in: the entries of the storage that the pages read.
pub record Visitor : Type 0 where
  pub user_id : Text
  pub role : Text

module _ (settings : Settings) (n : Nftables) (h : Host settings.wg_interface) where
  abbrev pub State : Type 0
  State = Database × World settings n h

  -- Once the row is there: the text that is shown, and then the peer and the chain. Without the
  -- server's key there is neither.
  abbrev pub after_commit :
      Device → Text → Option Text → Database → World settings n h → State × Option Text
  after_commit d private_key none db w = ((db, w), none)
  after_commit d private_key (some server_key) db w = (
    (db, on_device_created settings n h d w),
    some (build_client_config settings d private_key server_key db.configuration),
  )

  abbrev pub store_row : Text → Option Device → State → State × Option Text
  store_row private_key none (db, w) = ((db, w), none)
  store_row private_key (some d) (db, w) =
      after_commit d private_key (get_server_public_key db.configuration)
        (record db { devices = d ∷ db.devices }) w

  -- The `try` of `create_device`, with the row that is made of the two addresses.
  abbrev pub create_row :
      (Text → Text → Option Device)
      → Text
      → Outcome Text
      → Outcome Text
      → State
      → State × Option Text
  create_row row private_key (failed e) v6 s = (s, none)
  create_row row private_key (done v4) (failed e) s = (s, none)
  create_row row private_key (done v4) (done v6) s = store_row private_key (row v4 v6) s

  abbrev pub allocated_row :
      (Text → Text → Option Device) → Text → Draws → State → State × Option Text
  allocated_row row private_key d s =
      create_row row private_key (allocate_ipv4 s.0.devices settings.wg_ipv4_network d.draw_v4)
        (allocate_ipv6 s.0.devices settings.wg_ipv6_network d.draw_v6) s

  -- `create_device` of the user's page, with the private key that goes with the drawn public key.
  unfoldable pub create_own_device :
      Visitor → DeviceForm → Draws → Text → State → State × Option Text
  unfolding device_of_form allocate_ipv4 allocate_ipv6 on_device_created get_server_public_key
      build_client_config
  create_own_device v form d private_key s =
      if length (strip form.name) == 0
      then (s, none)
      else allocated_row (device_of_form form d v.user_id) private_key d s

  -- `create_device` of the administrator's page, for the owner that is chosen.
  unfoldable pub create_device_for : Text → DeviceForm → Draws → Text → State → State × Option Text
  unfolding device_of_admin_form allocate_ipv4 allocate_ipv6 on_device_created get_server_public_key
      build_client_config
  create_device_for owner form d private_key s =
      if (length (strip form.name) == 0) || (length owner == 0)
      then (s, none)
      else allocated_row (device_of_admin_form form d owner) private_key d s

  abbrev pub drop_device : Device → State → State
  drop_device d (db, w) =
      let db' = record db { devices = delete_row (λ e. e.id) d.id db.devices } in
      (db', on_device_deleted settings n h db' d w)

  abbrev pub drop_found : (Device → Bool) → Option Device → State → State
  drop_found may none s = s
  drop_found may (some d) s = if may d then drop_device d s else s

  -- `delete_device` of the user's page
  unfoldable pub delete_own_device : Visitor → Text → State → State
  unfolding find delete_row on_device_deleted
  delete_own_device v device_id s =
      drop_found (λ d. eqb d.user_id v.user_id) (find (λ d. d.id) device_id s.0.devices) s

  -- `delete_and_redirect`, and `delete_device` of the administrator's page
  unfoldable pub delete_any_device : Text → State → State
  unfolding find delete_row on_device_deleted
  delete_any_device device_id s = drop_found (λ d. true) (find (λ d. d.id) device_id s.0.devices) s

  -- The edited row is written and the host follows; `none` is an error before the commit.
  abbrev pub write_row : Option Device → State → State
  write_row none s = s
  write_row (some d) (db, w) =
      let db' = record db { devices = put_row (λ e. e.id) d db.devices } in
      (db', on_device_updated settings n h db' d w)

  abbrev pub edit_found : (Device → Option Device) → Option Device → State → State
  edit_found edit none s = s
  edit_found edit (some d) s = write_row (edit d) s

  -- `save_edit` of the page of one device
  unfoldable pub save_edit : Text → DeviceForm → State → State
  unfolding find put_row edited_device on_device_updated
  save_edit device_id form s =
      edit_found (edited_device form) (find (λ d. d.id) device_id s.0.devices) s

  -- `save_edit` of the administrator's page
  unfoldable pub save_admin_edit : Text → DeviceForm → State → State
  unfolding find put_row edited_by_admin on_device_updated
  save_admin_edit device_id form s =
      edit_found (edited_by_admin form) (find (λ d. d.id) device_id s.0.devices) s

  -- Whether `/devices/{device_id}` opens for a visitor.
  unfoldable pub opens : Visitor → Text → Database → Bool
  unfolding find
  opens v device_id db = elim (find (λ d. d.id) device_id db.devices) [
    | none ↦ false
    | some d ↦ eqb d.user_id v.user_id || eqb v.role (codes "admin")
  ]
