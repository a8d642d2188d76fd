-- ===== src/DevicePages/Visits.antt =====
-- A visitor on the pages of the devices: which handlers a page offers, and what opens it.
use wiregui.Base.{Bool, List, [], ◌∷◌, Text, codes, eqb, if◌then◌else◌}
use wiregui.Settings.{Settings}
use wiregui.Nft.{Nftables}
use wiregui.Host.{Host}
use wiregui.Api.{Draws}
use wiregui.DevicePages.Form.{DeviceForm}
use wiregui.DevicePages.Handlers.{
  Visitor, State, create_own_device, create_device_for, delete_own_device, delete_any_device,
  save_edit, save_admin_edit, opens,
}

-- The pages `/devices`, `/admin/devices` and `/devices/{device_id}`, or another.
pub data Page : Type 0 where
  elsewhere : Page
  own_devices : Page
  all_devices : Page
  one_device : Text → Page

-- What a visitor does: goes to a page, or calls a handler of the page that is open.
pub data Action : Type 0 where
  visit_own : Action
  visit_all : Action
  visit_one : Text → Action
  create : Text → DeviceForm → Draws → Text → Action
  delete : Text → Action
  save : Text → DeviceForm → Action

-- `_guard`
abbrev pub has_admin_role : Visitor → Bool
has_admin_role v = eqb v.role (codes "admin")

module _ (settings : Settings) (n : Nftables) (h : Host settings.wg_interface) (v : Visitor) where
  abbrev pub Visit : Type 0
  Visit = Page × State settings n h

  -- The owner that is chosen counts on the administrator's page only.
  abbrev pub create_on :
      Page → Text → DeviceForm → Draws → Text → State settings n h → State settings n h
  create_on own_devices owner form d private_key s =
      (create_own_device settings n h v form d private_key s).0
  create_on all_devices owner form d private_key s =
      (create_device_for settings n h owner form d private_key s).0
  create_on elsewhere owner form d private_key s = s
  create_on (one_device device_id) owner form d private_key s = s

  -- The page of one device deletes that one.
  abbrev pub delete_on : Page → Text → State settings n h → State settings n h
  delete_on own_devices chosen s = delete_own_device settings n h v chosen s
  delete_on all_devices chosen s = delete_any_device settings n h chosen s
  delete_on (one_device device_id) chosen s = delete_any_device settings n h device_id s
  delete_on elsewhere chosen s = s

  abbrev pub save_on : Page → Text → DeviceForm → State settings n h → State settings n h
  save_on all_devices chosen form s = save_admin_edit settings n h chosen form s
  save_on (one_device device_id) chosen form s = save_edit settings n h device_id form s
  save_on own_devices chosen form s = s
  save_on elsewhere chosen form s = s

  unfoldable pub act : Action → Visit → Visit
  unfolding create_own_device create_device_for delete_own_device delete_any_device save_edit
      save_admin_edit opens
  act visit_own (page, s) = (own_devices, s)
  act visit_all (page, s) = (if has_admin_role v then all_devices else elsewhere, s)
  act (visit_one device_id) (page, s) =
      (if opens settings n h v device_id s.0 then one_device device_id else elsewhere, s)
  act (create owner form d private_key) (page, s) =
      (page, create_on page owner form d private_key s)
  act (delete chosen) (page, s) = (page, delete_on page chosen s)
  act (save chosen form) (page, s) = (page, save_on page chosen form s)

  unfoldable pub act_all : List Action → Visit → Visit
  unfolding act
  act_all [] visit = visit
  act_all (a ∷ as') visit = act_all as' (act a visit)
