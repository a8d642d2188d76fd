-- ===== src/Examples/Calls.antt =====
-- Examples for the calls of the API.
use wiregui.Base.{ℕ, ◌≡◌, ◌⊎◌, refl, true, false, none, some, [], codes}
use wiregui.Models.{User, ApiToken}
use wiregui.Database.{find}
use wiregui.Nft.Table.{table_nft}
use wiregui.Host.{Host}
use wiregui.Host.Memory.{memory_host}
use wiregui.Auth.{http_error, token_hmac, is_expired, is_enabled, is_admin}
use wiregui.Api.{
  Service, DeviceUpdate, devices_put, users_delete, device_handler, handle_admin, admin_handler,
}
use wiregui.Api.Access.{IsConfined, device_handler-IsConfined, handle_admin_lem}
use wiregui.Examples.Library.{plain_library}
use wiregui.Examples.Samples.{sample_settings, sample_db, bob}
use wiregui.Examples.Chains.{chains_before}

abbrev pub wg0 : Host (codes "wg0")
wg0 = memory_host (codes "wg0")

abbrev pub service : Service sample_settings plain_library table_nft wg0
service = record {
  db = sample_db;
  world = record { host = record { table = []; routed = false }; firewall = chains_before };
}

abbrev renaming : DeviceUpdate
renaming = record {
  name = some (some (codes "mobile"));
  description = none;
  use_default_allowed_ips = none;
  use_default_dns = none;
  use_default_endpoint = none;
  use_default_mtu = none;
  use_default_persistent_keepalive = none;
  endpoint = none;
  mtu = none;
  persistent_keepalive = none;
  allowed_ips = none;
  dns = none;
}

-- Bob may not change Ann's device.
refused :
    device_handler sample_settings plain_library table_nft wg0
      (devices_put (codes "d1") renaming)
      bob
      service
    ≡ (http_error 403, service)
unfolding device_handler
refused = refl

device_handler-IsConfined_example :
    IsConfined sample_settings plain_library table_nft wg0 bob service
      (device_handler sample_settings plain_library table_nft wg0
        (devices_put (codes "d2") renaming)
        bob
        service).1
device_handler-IsConfined_example =
    device_handler-IsConfined sample_settings plain_library table_nft wg0
      (devices_put (codes "d2") renaming) bob service refl (refl, (refl, tt))

handle_admin_lem_example :
    ((status : ℕ) × (handle_admin sample_settings plain_library table_nft wg0
          (users_delete (codes "b"))
          900
          (codes "Bearer tok")
          service
        ≡ (http_error status, service)))
    ⊎ ((u : User) × (t : ApiToken) × (find
            (λ r. r.token_hash)
            (token_hmac sample_settings plain_library (codes "tok"))
            sample_db.api_tokens
          ≡ some t)
        × (is_expired t.expires_at 900 ≡ false)
        × (find (λ r. r.id) t.user_id sample_db.users ≡ some u)
        × (is_enabled u ≡ true)
        × (is_admin u ≡ true)
        × (handle_admin sample_settings plain_library table_nft wg0
              (users_delete (codes "b"))
              900
              (codes "Bearer tok")
              service
            ≡ admin_handler sample_settings plain_library table_nft wg0
                (users_delete (codes "b"))
                service))
handle_admin_lem_example =
    handle_admin_lem sample_settings plain_library table_nft wg0 (users_delete (codes "b")) 900
      (codes "Bearer tok") service
