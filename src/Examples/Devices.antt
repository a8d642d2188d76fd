-- ===== src/Examples/Devices.antt =====
-- Examples for the pages of the devices.
use wiregui.Base.{
  ◌≡◌, refl, sym, ◌∙◌, true, false, none, some, some-eq, none-ne-some, List, [], ◌∷◌, codes, arith,
}
use wiregui.Base.Int.{pos}
use wiregui.Nft.{ip, ip6}
use wiregui.Nft.Table.{table_nft}
use wiregui.Net.{
  Network, ipv4_network, ipv6_network, ip_network, show_network, show_v4, show_v6, show_ℕ,
}
use wiregui.Models.{Device}
use wiregui.Api.{Draws}
use wiregui.DevicePages.{
  DeviceForm, device_of_form, form_of, edited_by_admin, Visitor, State, create_own_device,
  elsewhere, Action, visit_own, visit_one, create, delete, save, act, act_all,
}
use wiregui.DevicePages.Effects.{IsSound, IsConfined}
use wiregui.DevicePages.Created.{DrawsInside}
use wiregui.DevicePages.Runs.{AllFresh, act_all-IsSound, act_all-IsConfined}
use wiregui.DevicePages.Reopened.{edited_by_admin-form_of}
use wiregui.Examples.Samples.{sample_settings, sample_db, sample_configuration, laptop}
use wiregui.Examples.Calls.{wg0, service}

abbrev bob_there : Visitor
bob_there = record { user_id = codes "b"; role = codes "unprivileged" }

abbrev tablet_form : DeviceForm
tablet_form = record {
  name = codes " tablet ";
  desc = [];
  use_default_ips = true;
  use_default_dns = false;
  use_default_endpoint = true;
  use_default_mtu = false;
  use_default_keepalive = true;
  allowed_ips = [];
  dns = codes "1.1.1.1, 9.9.9.9";
  endpoint = [];
  mtu = codes " 1_400";
  keepalive = codes "no number";
  allowed_subnets = [];
}

abbrev drawn : Draws
drawn = record {
  id = codes "d3";
  now = 9;
  salt = [];
  public_key = codes "K3";
  preshared_key = codes "P3";
  draw_v4 = λ _. 167969285;
  draw_v6 = λ _. 0xfd000000000000000000000300020005;
}

abbrev plain_form : DeviceForm
plain_form = record tablet_form {
  name = codes "new";
  use_default_dns = true;
  use_default_mtu = true;
}

abbrev tablet : Device
tablet = record laptop {
  id = codes "d3";
  name = codes "new";
  description = none;
  public_key = codes "K3";
  preshared_key = some (codes "P3");
  ipv4 = some (codes "10.3.2.5");
  ipv6 = some (codes "fd00::3:2:5");
  allowed_subnets = [];
  user_id = codes "b";
  inserted_at = 9;
  updated_at = 9;
}

abbrev before : State sample_settings table_nft wg0
before = (sample_db, service.world)

abbrev keyed : State sample_settings table_nft wg0
keyed = (
  record sample_db {
    configuration = some (record sample_configuration { server_public_key = some (codes "S") });
  },
  service.world,
)

-- The row has the addresses that were drawn, and the numbers of the inputs that count.
tablet_created :
    device_of_form tablet_form drawn (codes "b") (codes "10.3.2.5") (codes "fd00::3:2:5")
    ≡ some (record tablet {
      name = codes "tablet";
      use_default_dns = false;
      use_default_mtu = false;
      mtu = some (pos 1400);
      dns = codes "1.1.1.1" ∷ (codes "9.9.9.9" ∷ []);
    })
unfolding device_of_form
tablet_created = refl

-- Without the key of the server the row is stored all the same, and the host has no peer for it.
stored_alone :
    create_own_device sample_settings table_nft wg0 bob_there plain_form drawn [] before
    ≡ ((record sample_db { devices = tablet ∷ sample_db.devices }, service.world), none)
unfolding create_own_device show_v4 show_v6
stored_alone = refl

-- A number that cannot be read, of an input that counts, makes nothing.
number_refused :
    (create_own_device sample_settings table_nft wg0 bob_there
      (record tablet_form { use_default_keepalive = false })
      drawn
      []
      keyed).0
    ≡ keyed
unfolding create_own_device show_v4
number_refused = refl

abbrev pool_v4 : Network
pool_v4 = record { family = ip; network_address = 167969280; scope = []; prefixlen = 24 }

abbrev pool_v6 : Network
pool_v6 = record {
  family = ip6;
  network_address = 0xfd000000000000000000000300020000;
  scope = [];
  prefixlen = 120;
}

pool_v4_lem : ipv4_network (codes "10.3.2.0/24") ≡ some pool_v4
unfolding ipv4_network
pool_v4_lem = refl

pool_v6_lem : ipv6_network (codes "fd00::3:2:0/120") ≡ some pool_v6
unfolding ipv6_network
pool_v6_lem = refl

inside_v4 : DrawsInside (ipv4_network (codes "10.3.2.0/24")) drawn.draw_v4
inside_v4 network there i = rw (some-eq (sym there ∙ pool_v4_lem)) (omega arith, omega arith)

inside_v6 : DrawsInside (ipv6_network (codes "fd00::3:2:0/120")) drawn.draw_v6
inside_v6 network there i = rw (some-eq (sym there ∙ pool_v6_lem)) (omega arith, omega arith)

abbrev run : List Action
run =
    visit_own
    ∷ (create [] tablet_form drawn []
        ∷ (visit_one (codes "d3")
            ∷ (save [] tablet_form ∷ (visit_one (codes "d1") ∷ (delete [] ∷ [])))))

sample-IsSound : IsSound sample_db.devices
sample-IsSound = record { ids = (refl, (refl, tt)); ipv4s = (refl, (refl, tt)); ipv6s = tt }

run-AllFresh : AllFresh sample_settings table_nft wg0 bob_there run (elsewhere, before)
unfolding act
run-AllFresh = (tt, ((refl, inside_v4, inside_v6), (tt, (tt, (tt, (tt, tt))))))

act_all-IsSound_example :
    IsSound (act_all sample_settings table_nft wg0 bob_there run (elsewhere, before)).1.0.devices
act_all-IsSound_example =
    act_all-IsSound sample_settings table_nft wg0 bob_there run elsewhere before tt sample-IsSound
      run-AllFresh

act_all-IsConfined_example :
    IsConfined bob_there before.0
      (act_all sample_settings table_nft wg0 bob_there run (elsewhere, before)).1.0
act_all-IsConfined_example =
    act_all-IsConfined sample_settings table_nft wg0 bob_there run elsewhere before refl tt
      sample-IsSound run-AllFresh

abbrev router : Device
router = record laptop {
  use_default_mtu = false;
  mtu = some (pos 1400);
  use_default_dns = false;
  dns = codes "1.1.1.1" ∷ (codes "9.9.9.9" ∷ []);
}

abbrev relay_network : Network
relay_network = record { family = ip; network_address = 168361984; scope = []; prefixlen = 24 }

relay_lem :
    (ip_network (codes "10.9.0.0/24") ≡ some relay_network)
    × (show_network relay_network ≡ codes "10.9.0.0/24")
unfolding ip_network show_network show_v4 show_ℕ
relay_lem = (refl, refl)

edited_by_admin-form_of_example : edited_by_admin (form_of router) router ≡ some router
edited_by_admin-form_of_example =
    edited_by_admin-form_of router
      (record {
        name = refl;
        description = tt;
        endpoint = λ off. tt;
        dns = λ off. ((refl, refl, refl), ((refl, refl, refl), tt));
        allowed_ips = λ off. tt;
        mtu = λ off zero_mtu. cc;
        keepalive = λ off zero_keepalive. absurd (none-ne-some zero_keepalive);
      })
      (((refl, refl, refl), (relay_network, relay_lem.0, relay_lem.1)), tt)
