-- ===== src/Api/RuleRoutes.antt =====
-- wiregui/api/v0/rules.py and configuration.py
use wiregui.Base.{Bool, ◌||◌, if◌then◌else◌, Option, none, some, ◌∷◌, Text}
use wiregui.Settings.{Settings}
use wiregui.Models.{Rule, Configuration}
use wiregui.Database.{find, put_row, delete_row, order_rules}
use wiregui.Nft.{Nftables}
use wiregui.Host.{Host}
use wiregui.Events.{on_rule_created, on_rule_deleted}
use wiregui.Auth.{Primitives, Reply, reply, http_error}
use wiregui.Api.Requests.{
  RuleCreate, RuleUpdate, ConfigurationUpdate, Draws, patched, patched_value, patched_list, is_null,
}
use wiregui.Api.Users.{
  Body, rules_body, rule_body, configuration_body, no_content, Service, Handler, or_404,
}

unfoldable pub new_rule : RuleCreate → Draws → Rule
new_rule body d = record {
  id = d.id;
  action = body.action;
  destination = body.destination;
  port_type = body.port_type;
  port_range = body.port_range;
  priority = body.priority;
  user_id = body.user_id;
  inserted_at = d.now;
  updated_at = d.now;
}

unfoldable pub update_rule_row : RuleUpdate → Rule → Rule
update_rule_row body r = record r {
  action = patched_value body.action r.action;
  destination = patched_value body.destination r.destination;
  port_type = patched body.port_type r.port_type;
  port_range = patched body.port_range r.port_range;
  priority = patched_value body.priority r.priority;
  user_id = patched body.user_id r.user_id;
}

unfoldable pub update_configuration_row : ConfigurationUpdate → Configuration → Configuration
update_configuration_row body c = record c {
  allow_unprivileged_device_management =
      patched_value body.allow_unprivileged_device_management
        c.allow_unprivileged_device_management;
  allow_unprivileged_device_configuration =
      patched_value body.allow_unprivileged_device_configuration
        c.allow_unprivileged_device_configuration;
  local_auth_enabled = patched_value body.local_auth_enabled c.local_auth_enabled;
  disable_vpn_on_oidc_error =
      patched_value body.disable_vpn_on_oidc_error c.disable_vpn_on_oidc_error;
  default_client_persistent_keepalive =
      patched_value body.default_client_persistent_keepalive c.default_client_persistent_keepalive;
  default_client_mtu = patched_value body.default_client_mtu c.default_client_mtu;
  default_client_endpoint = patched body.default_client_endpoint c.default_client_endpoint;
  default_client_dns = patched_list body.default_client_dns c.default_client_dns;
  default_client_allowed_ips =
      patched_list body.default_client_allowed_ips c.default_client_allowed_ips;
  vpn_session_duration = patched_value body.vpn_session_duration c.vpn_session_duration;
  logo_url = patched body.logo_url c.logo_url;
  logo_type = patched body.logo_type c.logo_type;
}

-- Whether the commit refuses the update.
abbrev pub is_refused_rule : RuleUpdate → Bool
is_refused_rule body = is_null body.action || (is_null body.destination || is_null body.priority)

abbrev pub is_refused_configuration : ConfigurationUpdate → Bool
is_refused_configuration body =
    is_null body.allow_unprivileged_device_management
    || (is_null body.allow_unprivileged_device_configuration
        || (is_null body.local_auth_enabled
            || (is_null body.disable_vpn_on_oidc_error
                || (is_null body.default_client_persistent_keepalive
                    || (is_null body.default_client_mtu || is_null body.vpn_session_duration)))))

-- The answer once the row is written: a list that is null is no list of the schema, which is 500.
abbrev pub configuration_answer : ConfigurationUpdate → Configuration → Reply Body
configuration_answer body c =
    if is_null body.default_client_dns || is_null body.default_client_allowed_ips
    then http_error 500
    else reply (configuration_body c)

module _ (settings : Settings) (p : Primitives) (n : Nftables)
    (h : Host settings.wg_interface) where
  abbrev Handling : Type 0
  Handling = Handler settings p n h

  unfoldable pub list_rules : Handling
  unfolding order_rules
  list_rules s = (reply (rules_body (order_rules s.db.rules)), s)

  unfoldable pub get_rule : Text → Handling
  unfolding find
  get_rule rule_id s =
      or_404 settings p n h (find (λ r. r.id) rule_id s.db.rules)
        (λ r s'. (reply (rule_body r), s')) s

  unfoldable pub create_rule : RuleCreate → Draws → Handling
  unfolding new_rule on_rule_created
  create_rule body d s =
      (let db' = record (s.db) { rules = new_rule body d ∷ s.db.rules } in
        (
          reply (rule_body (new_rule body d)),
          record { db = db'; world = on_rule_created settings n h db' (new_rule body d) s.world },
        ))

  -- No handler of wiregui/services/events.py is called here.
  unfoldable pub update_rule : Text → RuleUpdate → Handling
  unfolding find put_row update_rule_row
  update_rule rule_id body s =
      or_404 settings p n h (find (λ r. r.id) rule_id s.db.rules)
        (λ r s'. if is_refused_rule body then (http_error 500, s') else (
          reply (rule_body (update_rule_row body r)),
          record s' {
            db = record (s'.db) {
              rules = put_row (λ q. q.id) (update_rule_row body r) s'.db.rules;
            };
          },
        ))
        s

  unfoldable pub delete_rule : Text → Handling
  unfolding find delete_row on_rule_deleted
  delete_rule rule_id s =
      or_404 settings p n h (find (λ r. r.id) rule_id s.db.rules)
        (λ r s'.
          (let db' = record (s'.db) { rules = delete_row (λ q. q.id) r.id s'.db.rules } in
            (
              reply no_content,
              record { db = db'; world = on_rule_deleted settings n h db' r s'.world },
            )))
        s

  -- `_get_config`: the row, which is made when it is missing; `fresh` is the row with its defaults.
  abbrev pub config_or : Configuration → Option Configuration → Configuration
  config_or fresh none = fresh
  config_or fresh (some config) = config

  abbrev pub put_config : Configuration → Service settings p n h → Service settings p n h
  put_config config s = record s { db = record (s.db) { configuration = some config } }

  unfoldable pub get_configuration : Configuration → Handling
  get_configuration fresh s =
      (let config = config_or fresh s.db.configuration in
        (reply (configuration_body config), put_config config s))

  unfoldable pub update_configuration : Configuration → ConfigurationUpdate → Handling
  unfolding update_configuration_row
  update_configuration fresh body s =
      (let config = update_configuration_row body (config_or fresh s.db.configuration) in
        if is_refused_configuration body
        then (http_error 500, put_config (config_or fresh s.db.configuration) s)
        else (configuration_answer body config, put_config config s))
