-- ===== src/Net/Tests.antt =====
-- Runs of the models of `ipaddress`.
use wiregui.Base.{◌≡◌, refl, none, some, [], ◌∷◌, map, codes}
use wiregui.Net.Cidr.{normalize_cidr}

normalized :
    map normalize_cidr (
      codes "192.168.1.5/24"
      ∷ (codes "10.1.2.3/255.255.0.0"
          ∷ (codes "10.0.0.1"
              ∷ (codes "fd00::3:2:7/120"
                  ∷ (codes "1::2:0:0:0/64"
                      ∷ (codes "::ffff:1.2.3.4%eth0"
                          ∷ (codes "1:2:3:4:5:6:7:8" ∷ (codes "::/0" ∷ []))))))))
    ≡ some (codes "192.168.1.0/24")
      ∷ (some (codes "10.1.0.0/16")
          ∷ (some (codes "10.0.0.1/32")
              ∷ (some (codes "fd00::3:2:0/120")
                  ∷ (some (codes "1::/64")
                      ∷ (some (codes "::ffff:1.2.3.4%eth0/128")
                          ∷ (some (codes "1:2:3:4:5:6:7:8/128") ∷ (some (codes "::/0") ∷ [])))))))
unfolding normalize_cidr
normalized = refl

refused :
    map normalize_cidr (
      codes "10.0.0.01"
      ∷ (codes "300.1.1.1" ∷ (codes "10.0.0.0/33" ∷ (codes "1::2::3" ∷ (codes "vpn" ∷ [])))))
    ≡ none ∷ (none ∷ (none ∷ (none ∷ (none ∷ []))))
unfolding normalize_cidr
refused = refl
