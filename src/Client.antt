-- ===== src/Client.antt =====
-- wiregui/utils/wg_conf.py: the configuration file that a user downloads for a device.
use wiregui.Base.{
  zero, suc, ◌≡◌, refl, ap, sym, ◌∙◌, Bool, false, Option, none, some, List, [], ◌∷◌, ◌++◌, Text,
  codes, join, length, ◌==◌, not, truthy, text_or_empty, if◌then◌else◌,
}
use wiregui.Base.Int.{ℤ, pos, negsuc}
use wiregui.Net.{show_ℕ}
use wiregui.Settings.{Settings}
use wiregui.Models.{Device, Configuration}

-- A setting of the environment is one text, one of the database or the device a list.
pub data Listed : Type 0 where
  one : Text → Listed
  many : List Text → Listed

abbrev pub has_any : Listed → Bool
has_any (one t) = not (length t == 0)
has_any (many ts) = not (length ts == 0)

abbrev pub listed_text : Listed → Text
listed_text (one t) = t
listed_text (many ts) = join (codes ", ") ts

abbrev pub list_or : List Text → Text → Listed
list_or [] t = one t
list_or (x ∷ xs) t = many (x ∷ xs)

-- The default of a setting, from the database where it has one, else from the environment.
abbrev pub default_dns : Settings → Option Configuration → Listed
default_dns settings none = one settings.wg_dns
default_dns settings (some c) = list_or c.default_client_dns settings.wg_dns

abbrev pub default_allowed_ips : Settings → Option Configuration → Listed
default_allowed_ips settings none = one settings.wg_allowed_ips
default_allowed_ips settings (some c) = list_or c.default_client_allowed_ips settings.wg_allowed_ips

abbrev pub default_host : Settings → Option Configuration → Option Text
default_host settings none = some settings.wg_endpoint_host
default_host settings (some c) =
    if truthy c.default_client_endpoint
    then c.default_client_endpoint
    else some settings.wg_endpoint_host

abbrev pub default_mtu : Settings → Option Configuration → Option ℤ
default_mtu settings none = some settings.wg_mtu
default_mtu settings (some c) = some c.default_client_mtu

abbrev pub default_keepalive : Settings → Option Configuration → Option ℤ
default_keepalive settings none = some settings.wg_persistent_keepalive
default_keepalive settings (some c) = some c.default_client_persistent_keepalive

-- What the lines are written from.
pub record Resolved : Type 0 where
  pub dns : Listed
  pub endpoint_host : Option Text
  pub mtu : Option ℤ
  pub keepalive : Option ℤ
  pub allowed_ips : Listed

unfoldable pub resolve : Settings → Device → Option Configuration → Resolved
resolve settings d config = record {
  dns = if d.use_default_dns then default_dns settings config else many d.dns;
  endpoint_host = if d.use_default_endpoint then default_host settings config else d.endpoint;
  mtu = if d.use_default_mtu then default_mtu settings config else d.mtu;
  keepalive =
      if d.use_default_persistent_keepalive
      then default_keepalive settings config
      else d.persistent_keepalive;
  allowed_ips =
      if d.use_default_allowed_ips then default_allowed_ips settings config else many d.allowed_ips;
}

unfoldable pub show_ℤ : ℤ → Text
unfolding show_ℕ
show_ℤ (pos n) = show_ℕ n
show_ℤ (negsuc n) = codes "-" ++ show_ℕ (suc n)

-- A number that is neither missing nor 0.
number_line : Text → Option ℤ → List Text
unfolding show_ℤ
number_line name none = []
number_line name (some (pos zero)) = []
number_line name (some z) = (name ++ show_ℤ z) ∷ []

abbrev addr_text : Text → Option Text → List Text
addr_text mask addr = if truthy addr then (text_or_empty addr ++ mask) ∷ [] else []

unfoldable pub client_addresses : Device → List Text
client_addresses d = addr_text (codes "/32") d.ipv4 ++ addr_text (codes "/128") d.ipv6

abbrev text_line : Text → Bool → Text → List Text
text_line name given value = if given then (name ++ value) ∷ [] else []

-- `f"{host}"` writes a missing host as `None`.
abbrev host_text : Option Text → Text
host_text none = codes "None"
host_text (some host) = host

unfoldable pub config_lines : Settings → Device → Text → Text → Resolved → List Text
unfolding number_line client_addresses show_ℕ
config_lines settings d private_key server_public_key r =
    (codes "[Interface]" ∷ ((codes "PrivateKey = " ++ private_key) ∷ []))
    ++ (text_line (codes "Address = ") (not (length (client_addresses d) == 0))
          (join (codes ", ") (client_addresses d))
        ++ (text_line (codes "DNS = ") (has_any r.dns) (listed_text r.dns)
            ++ (number_line (codes "MTU = ") r.mtu
                ++ (([] ∷ (codes "[Peer]" ∷ ((codes "PublicKey = " ++ server_public_key) ∷ [])))
                    ++ (text_line (codes "PresharedKey = ") (truthy d.preshared_key)
                          (text_or_empty d.preshared_key)
                        ++ (text_line (codes "AllowedIPs = ") (has_any r.allowed_ips)
                              (listed_text r.allowed_ips)
                            ++ (((codes "Endpoint = "
                                    ++ (host_text r.endpoint_host
                                        ++ (codes ":" ++ show_ℕ settings.wg_endpoint_port)))
                                  ∷ [])
                                ++ number_line (codes "PersistentKeepalive = ") r.keepalive)))))))

unfoldable pub build_client_config : Settings → Device → Text → Text → Option Configuration → Text
unfolding resolve config_lines
build_client_config settings d private_key server_public_key config =
    join (10 ∷ [])
      (config_lines settings d private_key server_public_key (resolve settings d config))
    ++ (10 ∷ [])

abbrev pub own_settings : Device → Resolved
own_settings d = record {
  dns = many d.dns;
  endpoint_host = d.endpoint;
  mtu = d.mtu;
  keepalive = d.persistent_keepalive;
  allowed_ips = many d.allowed_ips;
}

resolve-own_settings :
    (settings : Settings) (d : Device) (config : Option Configuration)
    → d.use_default_dns ≡ false
    → d.use_default_endpoint ≡ false
    → d.use_default_mtu ≡ false
    → d.use_default_persistent_keepalive ≡ false
    → d.use_default_allowed_ips ≡ false
    → resolve settings d config ≡ own_settings d
unfolding resolve
resolve-own_settings settings d config dns host mtu keepalive ips =
    rw (dns, host, mtu, keepalive, ips) refl

-- A device that overrides every setting has the same file whatever the database's defaults are.
build_client_config-overrides :
    (settings : Settings) (d : Device) (private_key server_public_key : Text)
    (config config' : Option Configuration)
    → d.use_default_dns ≡ false
    → d.use_default_endpoint ≡ false
    → d.use_default_mtu ≡ false
    → d.use_default_persistent_keepalive ≡ false
    → d.use_default_allowed_ips ≡ false
    → build_client_config settings d private_key server_public_key config
      ≡ build_client_config settings d private_key server_public_key config'
unfolding build_client_config resolve
build_client_config-overrides settings d private_key server_public_key config config' dns host mtu
      keepalive ips =
    ap (λ r. join (10 ∷ []) (config_lines settings d private_key server_public_key r) ++ (10 ∷ []))
      (resolve-own_settings settings d config dns host mtu keepalive ips
        ∙ sym (resolve-own_settings settings d config' dns host mtu keepalive ips))
