-- ===== src/Api/DeviceRoutes.antt =====
-- wiregui/api/v0/devices.py
use wiregui.Base.{
  Bool, true, ◌&&◌, ◌||◌, Option, none, some, List, [], ◌∷◌, Text, eqb, leb, truthy, text_or_empty,
  if◌then◌else◌, Outcome, done, failed,
}
use wiregui.Settings.{Settings}
use wiregui.Models.{User, Device}
use wiregui.Database.{find, put_row, delete_row, devices_of}
use wiregui.Nft.{Nftables}
use wiregui.Host.{Host}
use wiregui.Events.{on_device_created, on_device_deleted, on_device_updated}
use wiregui.Allocation.{allocate_ipv4, allocate_ipv6}
use wiregui.Auth.{Primitives, Reply, reply, http_error, is_admin}
use wiregui.Api.Requests.{
  DeviceCreate, DeviceUpdate, Draws, patched, patched_value, patched_list, is_null,
}
use wiregui.Api.Users.{Body, devices_body, device_body, no_content, Service, Handler, or_404}

insert_device : Device → List Device → List Device
insert_device d [] = d ∷ []
insert_device d (e ∷ es) =
    let rest = insert_device d es in
    if leb e.inserted_at d.inserted_at then d ∷ (e ∷ es) else e ∷ rest

-- `ORDER BY inserted_at DESC`
unfoldable pub order_devices : List Device → List Device
unfolding insert_device
order_devices [] = []
order_devices (d ∷ ds) = insert_device d (order_devices ds)

-- Whether a user may see and change a device.
abbrev pub may_access : User → Device → Bool
may_access u d = is_admin u || eqb d.user_id u.id

-- The owner that the body names counts for an administrator only.
abbrev pub owner_id : User → Option Text → Text
owner_id u named = if truthy named && is_admin u then text_or_empty named else u.id

-- A new row, with the defaults of wiregui/models/device.py.
unfoldable pub new_device : DeviceCreate → Draws → Text → Text → Text → Device
new_device body d owner v4 v6 = record {
  id = d.id;
  name = body.name;
  description = body.description;
  public_key = d.public_key;
  preshared_key = some d.preshared_key;
  use_default_allowed_ips = true;
  use_default_dns = true;
  use_default_endpoint = true;
  use_default_mtu = true;
  use_default_persistent_keepalive = true;
  endpoint = none;
  mtu = none;
  persistent_keepalive = none;
  allowed_ips = [];
  dns = [];
  ipv4 = some v4;
  ipv6 = some v6;
  allowed_subnets = [];
  remote_ip = none;
  rx_bytes = none;
  tx_bytes = none;
  latest_handshake = none;
  user_id = owner;
  inserted_at = d.now;
  updated_at = d.now;
}

unfoldable pub update_device_row : DeviceUpdate → Device → Device
update_device_row body d = record d {
  name = patched_value body.name d.name;
  description = patched body.description d.description;
  use_default_allowed_ips = patched_value body.use_default_allowed_ips d.use_default_allowed_ips;
  use_default_dns = patched_value body.use_default_dns d.use_default_dns;
  use_default_endpoint = patched_value body.use_default_endpoint d.use_default_endpoint;
  use_default_mtu = patched_value body.use_default_mtu d.use_default_mtu;
  use_default_persistent_keepalive =
      patched_value body.use_default_persistent_keepalive d.use_default_persistent_keepalive;
  endpoint = patched body.endpoint d.endpoint;
  mtu = patched body.mtu d.mtu;
  persistent_keepalive = patched body.persistent_keepalive d.persistent_keepalive;
  allowed_ips = patched_list body.allowed_ips d.allowed_ips;
  dns = patched_list body.dns d.dns;
}

-- Whether the commit refuses the update.
abbrev pub is_refused_device : DeviceUpdate → Bool
is_refused_device body =
    is_null body.name
    || (is_null body.use_default_allowed_ips
        || (is_null body.use_default_dns
            || (is_null body.use_default_endpoint
                || (is_null body.use_default_mtu
                    || is_null body.use_default_persistent_keepalive))))

-- The answer once the row is written: a list that is null is no list of the schema, which is 500.
abbrev pub device_answer : DeviceUpdate → Device → Reply Body
device_answer body d =
    if is_null body.allowed_ips || is_null body.dns then http_error 500 else reply (device_body d)

module _ (settings : Settings) (p : Primitives) (n : Nftables)
    (h : Host settings.wg_interface) where
  abbrev Handling : Type 0
  Handling = Handler settings p n h

  unfoldable pub list_devices : User → Handling
  unfolding order_devices
  list_devices u s = (
    reply (
        devices_body
          (order_devices (if is_admin u then s.db.devices else devices_of u.id s.db.devices))),
    s,
  )

  -- The device, for a user who may access it.
  abbrev pub or_403_device : User → (Device → Handling) → Device → Handling
  or_403_device u f d s = if may_access u d then f d s else (http_error 403, s)

  -- The head that the handlers of one device share.
  unfoldable pub with_device : User → Text → (Device → Handling) → Handling
  unfolding find
  with_device u device_id f s =
      or_404 settings p n h (find (λ d. d.id) device_id s.db.devices) (or_403_device u f) s

  unfoldable pub get_device : User → Text → Handling
  unfolding with_device
  get_device u device_id s = with_device u device_id (λ d s'. (reply (device_body d), s')) s

  abbrev pub store_device : Device → Service settings p n h → Reply Body × Service settings p n h
  store_device d s = (
    reply (device_body d),
    record {
      db = record (s.db) { devices = d ∷ s.db.devices };
      world = on_device_created settings n h d s.world;
    },
  )

  abbrev pub create_with : User → DeviceCreate → Draws → Outcome Text → Outcome Text → Handling
  create_with u body d (failed e) v6 s = (http_error 500, s)
  create_with u body d (done v4) (failed e) s = (http_error 500, s)
  create_with u body d (done v4) (done v6) s =
      store_device (new_device body d (owner_id u body.user_id) v4 v6) s

  -- An allocation that fails is the `RuntimeError` that the framework answers with 500.
  unfoldable pub create_device : User → DeviceCreate → Draws → Handling
  unfolding new_device allocate_ipv4 allocate_ipv6 on_device_created
  create_device u body d s =
      create_with u body d (allocate_ipv4 s.db.devices settings.wg_ipv4_network d.draw_v4)
        (allocate_ipv6 s.db.devices settings.wg_ipv6_network d.draw_v6) s

  unfoldable pub update_device : User → Text → DeviceUpdate → Handling
  unfolding with_device update_device_row put_row on_device_updated
  update_device u device_id body s =
      with_device u device_id
        (λ d s'.
          (let d' = update_device_row body d in
            let db' = record (s'.db) { devices = put_row (λ e. e.id) d' s'.db.devices } in
            if is_refused_device body then (http_error 500, s') else (
              device_answer body d',
              record { db = db'; world = on_device_updated settings n h db' d' s'.world },
            )))
        s

  unfoldable pub delete_device : User → Text → Handling
  unfolding with_device delete_row on_device_deleted
  delete_device u device_id s =
      with_device u device_id
        (λ d s'.
          (let db' = record (s'.db) { devices = delete_row (λ e. e.id) d.id s'.db.devices } in
            (
              reply no_content,
              record { db = db'; world = on_device_deleted settings n h db' d s'.world },
            )))
        s
