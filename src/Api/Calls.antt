-- ===== src/Api/Calls.antt =====
-- The routes of the API with the dependencies that guard them, wiregui/api/deps.py.
use wiregui.Base.{ℕ, Text}
use wiregui.Settings.{Settings}
use wiregui.Models.{User, Configuration}
use wiregui.Nft.{Nftables}
use wiregui.Host.{Host}
use wiregui.Auth.{Primitives, Reply, reply, http_error, get_current_api_user, require_admin}
use wiregui.Api.Requests.{
  UserCreate, UserUpdate, DeviceCreate, DeviceUpdate, RuleCreate, RuleUpdate, ConfigurationUpdate,
  Draws,
}
use wiregui.Api.Users.{Handler, list_users, get_user, create_user, update_user, delete_user}
use wiregui.Api.DeviceRoutes.{list_devices, get_device, create_device, update_device, delete_device}
use wiregui.Api.RuleRoutes.{
  list_rules, get_rule, create_rule, update_rule, delete_rule, get_configuration,
  update_configuration,
}

-- The routes that want an administrator, and those that want any user.
pub data AdminCall : Type 0 where
  users_list rules_list : AdminCall
  users_get users_delete rules_get rules_delete : Text → AdminCall
  users_post : UserCreate → Draws → AdminCall
  users_put : Text → UserUpdate → Draws → AdminCall
  rules_post : RuleCreate → Draws → AdminCall
  rules_put : Text → RuleUpdate → AdminCall
  configuration_get : Configuration → AdminCall
  configuration_put : Configuration → ConfigurationUpdate → AdminCall

pub data DeviceCall : Type 0 where
  devices_list : DeviceCall
  devices_get devices_delete : Text → DeviceCall
  devices_post : DeviceCreate → Draws → DeviceCall
  devices_put : Text → DeviceUpdate → DeviceCall

module _ (settings : Settings) (p : Primitives) (n : Nftables)
    (h : Host settings.wg_interface) where
  -- A handler whose dependency resolves the user.
  abbrev pub guarded : Reply User → (User → Handler settings p n h) → Handler settings p n h
  guarded (http_error status) f s = (http_error status, s)
  guarded (reply u) f s = f u s

  unfoldable pub admin_handler : AdminCall → Handler settings p n h
  unfolding list_users get_user create_user update_user delete_user list_rules get_rule create_rule
      update_rule delete_rule get_configuration update_configuration
  admin_handler users_list = list_users settings p n h
  admin_handler rules_list = list_rules settings p n h
  admin_handler (users_get user_id) = get_user settings p n h user_id
  admin_handler (users_delete user_id) = delete_user settings p n h user_id
  admin_handler (rules_get rule_id) = get_rule settings p n h rule_id
  admin_handler (rules_delete rule_id) = delete_rule settings p n h rule_id
  admin_handler (users_post body d) = create_user settings p n h body d
  admin_handler (users_put user_id body d) = update_user settings p n h user_id body d
  admin_handler (rules_post body d) = create_rule settings p n h body d
  admin_handler (rules_put rule_id body) = update_rule settings p n h rule_id body
  admin_handler (configuration_get fresh) = get_configuration settings p n h fresh
  admin_handler (configuration_put fresh body) = update_configuration settings p n h fresh body

  unfoldable pub device_handler : DeviceCall → User → Handler settings p n h
  unfolding list_devices get_device create_device update_device delete_device
  device_handler devices_list u = list_devices settings p n h u
  device_handler (devices_get device_id) u = get_device settings p n h u device_id
  device_handler (devices_delete device_id) u = delete_device settings p n h u device_id
  device_handler (devices_post body d) u = create_device settings p n h u body d
  device_handler (devices_put device_id body) u = update_device settings p n h u device_id body

  -- A request with its `Authorization` header, at a time.
  unfoldable pub handle_admin : AdminCall → ℕ → Text → Handler settings p n h
  unfolding require_admin admin_handler
  handle_admin call now header s =
      guarded (require_admin settings p s.db now header) (λ _. admin_handler call) s

  unfoldable pub handle_device : DeviceCall → ℕ → Text → Handler settings p n h
  unfolding get_current_api_user device_handler
  handle_device call now header s =
      guarded (get_current_api_user settings p s.db now header) (λ u. device_handler call u) s
