-- ===== src/Tasks/Stats.antt =====
-- `_update_stats` of wiregui/tasks/stats.py, and `connection_status` of wiregui/utils/time.py.
use wiregui.Base.{
  ℕ, ◌+◌, Option, none, some, List, [], ◌∷◌, Text, codes, eqb, split, ltb, truthy, text_or_empty,
  map, if◌then◌else◌,
}
use wiregui.Models.{Device}
use wiregui.Database.{Database}
use wiregui.Wireguard.{PeerInfo}

abbrev or_earlier_peer : Option PeerInfo → PeerInfo → Text → Option PeerInfo
or_earlier_peer (some q) p k = some q
or_earlier_peer none p k = if eqb p.public_key k then some p else none

-- `peer_map`: of two peers with one key, the later.
abbrev pub peer_map : List PeerInfo → Text → Option PeerInfo
peer_map [] k = none
peer_map (p ∷ ps) k = or_earlier_peer (peer_map ps k) p k

-- `endpoint.split(":")[0]`
abbrev pub first_part : List Text → Text
first_part [] = []
first_part (part ∷ parts) = part

abbrev pub remote_ip_of : Option Text → Option Text
remote_ip_of endpoint =
    if truthy endpoint then some (first_part (split b':' (text_or_empty endpoint))) else none

abbrev pub with_stats : Option PeerInfo → Device → Device
with_stats none d = d
with_stats (some p) d = record d {
  rx_bytes = some p.rx_bytes;
  tx_bytes = some p.tx_bytes;
  latest_handshake = p.latest_handshake;
  remote_ip = remote_ip_of p.endpoint;
}

-- Without peers nothing is written.
unfoldable pub update_stats : List PeerInfo → Database → Database
update_stats peers db = record db {
  devices = map (λ d. with_stats (peer_map peers d.public_key) d) db.devices;
}

-- The colour and the label, by the age of the handshake in seconds.
unfoldable pub connection_status : ℕ → Option ℕ → Text × Text
connection_status now none = (codes "red", codes "offline")
connection_status now (some handshake) =
    if ltb now (handshake + 120)
    then (codes "green", codes "online")
    else if ltb now (handshake + 300)
    then (codes "yellow", codes "idle")
    else (codes "red", codes "offline")
