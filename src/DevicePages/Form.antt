-- ===== src/DevicePages/Form.antt =====
-- The forms of wiregui/pages/devices.py and wiregui/pages/admin/devices.py: how the inputs become
-- the row of a device, and how a row fills the inputs.
use wiregui.Base.{
  ℕ, zero, suc, ◌+◌, ◌-◌, ◌*◌, Bool, true, false, ◌&&◌, Option, none, some, List, [], ◌∷◌, Text,
  codes, strip, join, ◌==◌, text_or_empty, if◌then◌else◌,
}
use wiregui.Base.Int.{ℤ, pos, negsuc}
use wiregui.Net.{is_digit}
use wiregui.Models.{Device}
use wiregui.Api.{Draws}
use wiregui.Allocation.{parse_subnet_list}
use wiregui.Client.{show_ℤ}
use wiregui.Ordering.{stripped_or_none}
use wiregui.SettingsPage.{listed}

-- The inputs, in the create form (`create_*`) and in the edit form (`edit_*`).
pub record DeviceForm : Type 0 where
  pub name : Text
  pub desc : Text
  pub use_default_ips : Bool
  pub use_default_dns : Bool
  pub use_default_endpoint : Bool
  pub use_default_mtu : Bool
  pub use_default_keepalive : Bool
  pub allowed_ips : Text
  pub dns : Text
  pub endpoint : Text
  pub mtu : Text
  pub keepalive : Text
  pub allowed_subnets : Text

-- The digits that `int` reads, with single underscores between them; `ok` is after a digit.
unfoldable pub read_digits : ℕ → Bool → Text → Option ℕ
read_digits n ok [] = if ok then some n else none
read_digits n ok (c ∷ t) =
    let more = read_digits (n * 10 + (c - b'0')) true t in
    let next = read_digits n false t in
    if is_digit c then more else if (c == b'_') && ok then next else none

abbrev pub negated : ℕ → ℤ
negated zero = pos 0
negated (suc n) = negsuc n

abbrev pub plus_of : Option ℕ → Option ℤ
plus_of none = none
plus_of (some n) = some (pos n)

abbrev pub minus_of : Option ℕ → Option ℤ
minus_of none = none
minus_of (some n) = some (negated n)

unfoldable pub read_signed : Text → Option ℤ
unfolding read_digits
read_signed [] = none
read_signed (c ∷ t) =
    if c == b'-'
    then minus_of (read_digits 0 false t)
    else if c == b'+'
    then plus_of (read_digits 0 false t)
    else plus_of (read_digits 0 false (c ∷ t))

-- `int(t)` on ASCII text; `none` is the `ValueError`.
unfoldable pub read_int : Text → Option ℤ
unfolding read_signed
read_int t = read_signed (strip t)

abbrev number_read : Option ℤ → Option (Option ℤ)
number_read none = none
number_read (some z) = some (some z)

-- `int(value) if value else None`
unfoldable pub int_or_none : Text → Option (Option ℤ)
unfolding read_int
int_or_none [] = some none
int_or_none (c ∷ t) = number_read (read_int (c ∷ t))

-- An input that counts only where its switch is off, over what stands for it else.
abbrev pub unless_default {ℓ} : {A : Type ℓ} → Bool → A → A → A
unless_default use_default fallback value = if use_default then fallback else value

-- The new row of the user's page; `none` is the `ValueError` of a number.
abbrev pub row_of_form : DeviceForm → Draws → Text → Text → Text → Option ℤ → Option ℤ → Device
row_of_form form d owner v4 v6 mtu keepalive = record {
  id = d.id;
  name = strip form.name;
  description = stripped_or_none form.desc;
  public_key = d.public_key;
  preshared_key = some d.preshared_key;
  use_default_allowed_ips = form.use_default_ips;
  use_default_dns = form.use_default_dns;
  use_default_endpoint = form.use_default_endpoint;
  use_default_mtu = form.use_default_mtu;
  use_default_persistent_keepalive = form.use_default_keepalive;
  endpoint = unless_default form.use_default_endpoint none (stripped_or_none form.endpoint);
  mtu = mtu;
  persistent_keepalive = keepalive;
  allowed_ips = unless_default form.use_default_ips [] (listed form.allowed_ips);
  dns = unless_default form.use_default_dns [] (listed form.dns);
  ipv4 = some v4;
  ipv6 = some v6;
  allowed_subnets = [];
  remote_ip = none;
  rx_bytes = none;
  tx_bytes = none;
  latest_handshake = none;
  user_id = owner;
  inserted_at = d.now;
  updated_at = d.now;
}

abbrev pub with_numbers {ℓ} :
    {A : Type ℓ} → Option (Option ℤ) → Option (Option ℤ) → (Option ℤ → Option ℤ → A) → Option A
with_numbers none keepalive f = none
with_numbers (some mtu) none f = none
with_numbers (some mtu) (some keepalive) f = some (f mtu keepalive)

unfoldable pub device_of_form : DeviceForm → Draws → Text → Text → Text → Option Device
unfolding int_or_none listed
device_of_form form d owner v4 v6 =
    with_numbers (unless_default form.use_default_mtu (some none) (int_or_none form.mtu))
      (unless_default form.use_default_keepalive (some none) (int_or_none form.keepalive))
      (row_of_form form d owner v4 v6)

abbrev pub put_subnets : Option (List Text) → Option Device → Option Device
put_subnets none d = none
put_subnets (some subnets) none = none
put_subnets (some subnets) (some d) = some (record d { allowed_subnets = subnets })

-- The administrator's page also reads the relay subnets.
unfoldable pub device_of_admin_form : DeviceForm → Draws → Text → Text → Text → Option Device
unfolding device_of_form parse_subnet_list
device_of_admin_form form d owner v4 v6 =
    put_subnets (parse_subnet_list form.allowed_subnets) (device_of_form form d owner v4 v6)

-- The edited row; an input whose switch is on leaves the column as it is.
abbrev pub edited_with : DeviceForm → Device → Option ℤ → Option ℤ → Device
edited_with form d mtu keepalive = record d {
  name = strip form.name;
  description = stripped_or_none form.desc;
  use_default_allowed_ips = form.use_default_ips;
  use_default_dns = form.use_default_dns;
  use_default_endpoint = form.use_default_endpoint;
  use_default_mtu = form.use_default_mtu;
  use_default_persistent_keepalive = form.use_default_keepalive;
  endpoint = unless_default form.use_default_endpoint d.endpoint (stripped_or_none form.endpoint);
  dns = unless_default form.use_default_dns d.dns (listed form.dns);
  mtu = mtu;
  persistent_keepalive = keepalive;
  allowed_ips = unless_default form.use_default_ips d.allowed_ips (listed form.allowed_ips);
}

unfoldable pub edited_device : DeviceForm → Device → Option Device
unfolding int_or_none listed
edited_device form d =
    with_numbers (unless_default form.use_default_mtu (some d.mtu) (int_or_none form.mtu))
      (unless_default form.use_default_keepalive (some d.persistent_keepalive)
        (int_or_none form.keepalive))
      (edited_with form d)

unfoldable pub edited_by_admin : DeviceForm → Device → Option Device
unfolding edited_device parse_subnet_list
edited_by_admin form d = put_subnets (parse_subnet_list form.allowed_subnets) (edited_device form d)

-- `str(value) if value else ""`
unfoldable pub number_text : Option ℤ → Text
unfolding show_ℤ
number_text none = []
number_text (some (pos zero)) = []
number_text (some z) = show_ℤ z

-- `open_edit`: the inputs as the row fills them.
unfoldable pub form_of : Device → DeviceForm
unfolding number_text
form_of d = record {
  name = d.name;
  desc = text_or_empty d.description;
  use_default_ips = d.use_default_allowed_ips;
  use_default_dns = d.use_default_dns;
  use_default_endpoint = d.use_default_endpoint;
  use_default_mtu = d.use_default_mtu;
  use_default_keepalive = d.use_default_persistent_keepalive;
  allowed_ips = join (codes ", ") d.allowed_ips;
  dns = join (codes ", ") d.dns;
  endpoint = text_or_empty d.endpoint;
  mtu = number_text d.mtu;
  keepalive = number_text d.persistent_keepalive;
  allowed_subnets = join (codes ", ") d.allowed_subnets;
}
