-- ===== src/Collector.antt =====
-- wiregui/collector.py: the process that writes the statistics of the peers and sends the metrics.
-- The HTTP client and the wait between two polls are not modelled: a poll gives the new database
-- and the payload that is sent, if any.
pub mod Polled
use wiregui.Base.{
  ℕ, ◌+◌, ◌*◌, Bool, true, false, not, ◌&&◌, Option, none, some, List, [], ◌∷◌, ◌++◌, Text, codes,
  eqb, take, join, ltb, length, ◌==◌, is_some, truthy, map, if◌then◌else◌,
}
use wiregui.Settings.{Settings}
use wiregui.Models.{User, Device}
use wiregui.Database.{Database, find}
use wiregui.Net.{show_ℕ}
use wiregui.Host.{Host}
use wiregui.Wireguard.{PeerInfo, get_peers}
use wiregui.Tasks.{peer_map, with_stats}

-- What the metrics say of a device besides its key.
pub record Labels : Type 0 where
  pub device_name : Text
  pub user_email : Text

abbrev pub labels_of : Device → Option User → Option Labels
labels_of d none = none
labels_of d (some u) = some (record { device_name = d.name; user_email = u.email })

-- `select(Device, User.email).join(User)`: a device without a user is in no row.
unfoldable pub owner_of : List User → Device → Option User
unfolding find
owner_of users d = find (λ u. u.id) d.user_id users

abbrev pub with_row : Option User → Option PeerInfo → Device → Device
with_row none peer d = d
with_row (some u) peer d = with_stats peer d

abbrev pub or_else : Option Labels → Option Labels → Option Labels
or_else (some l) other = some l
or_else none other = other

-- The dict `labels` of a key, written row by row.
unfoldable pub labels_for : List User → Option PeerInfo → List Device → Text → Option Labels
unfolding owner_of
labels_for users none ds k = none
labels_for users (some p) [] k = none
labels_for users (some p) (d ∷ ds) k =
    let later = labels_for users (some p) ds k in
    or_else later (if eqb d.public_key k then labels_of d (owner_of users d) else none)

-- `_update_db`
unfoldable pub update_db : List PeerInfo → Database → Database × (Text → Option Labels)
unfolding labels_for owner_of
update_db peers db = (
  record db {
    devices = map (λ d. with_row (owner_of db.users d) (peer_map peers d.public_key) d) db.devices;
  },
  (λ k. labels_for db.users (peer_map peers k) db.devices k),
)

-- `int(handshake.timestamp()) if handshake else 0`
abbrev pub handshake_ts : Option ℕ → ℕ
handshake_ts none = 0
handshake_ts (some t) = t

-- A handshake less than 180 seconds before the clock, which is in milliseconds.
unfoldable pub is_connected : ℕ → Option ℕ → Bool
is_connected clock handshake =
    not (handshake_ts handshake == 0) && ltb clock ((handshake_ts handshake + 180) * 1000)

quoted : Text → Text → Text
quoted name value = name ++ (codes "=\"" ++ (value ++ codes "\""))

tag : PeerInfo → Labels → Text
unfolding quoted
tag p l = join (codes ",") (
    quoted (codes "public_key") (take 16 p.public_key)
    ∷ (quoted (codes "device_name") l.device_name
        ∷ (quoted (codes "user_email") l.user_email ∷ [])))

abbrev number_of : Bool → ℕ
number_of b = if b then 1 else 0

metric_line : Text → Text → ℕ → ℕ → Text
unfolding show_ℕ
metric_line name labels value now_ms =
    name
    ++ (codes "{" ++ (labels ++ (codes "} " ++ (show_ℕ value ++ (codes " " ++ show_ℕ now_ms)))))

-- The four lines of a peer.
unfoldable pub lines_of_peer : ℕ → ℕ → PeerInfo → Labels → List Text
unfolding metric_line tag is_connected
lines_of_peer now_ms clock p l =
    let labels = tag p l in
    metric_line (codes "wiregui_peer_rx_bytes") labels p.rx_bytes now_ms
    ∷ (metric_line (codes "wiregui_peer_tx_bytes") labels p.tx_bytes now_ms
        ∷ (metric_line (codes "wiregui_peer_latest_handshake_seconds") labels
              (handshake_ts p.latest_handshake) now_ms
            ∷ (metric_line (codes "wiregui_peer_connected") labels
                  (number_of (is_connected clock p.latest_handshake)) now_ms
                ∷ [])))

-- The lines of all peers, and `active_count`. `clock` is what `time.time()` gives at a peer.
unfoldable pub metric_lines :
    ℕ → (PeerInfo → ℕ) → List PeerInfo → (Text → Option Labels) → List Text × ℕ
unfolding lines_of_peer is_connected
metric_lines now_ms clock [] labels = ([], 0)
metric_lines now_ms clock (p ∷ ps) labels =
    let (lines, active) = metric_lines now_ms clock ps labels in
    elim (labels p.public_key) [
      | none ↦ (lines, active)
      | some l ↦ (
        lines_of_peer now_ms (clock p) p l ++ lines,
        number_of (is_connected (clock p) p.latest_handshake) + active,
      )
    ]

unfoldable pub total_line : ℕ → ℕ → Text
unfolding show_ℕ
total_line active now_ms =
    codes "wiregui_peers_total " ++ (show_ℕ active ++ (codes " " ++ show_ℕ now_ms))

abbrev pub text_of_lines : List Text → Text
text_of_lines lines = join (10 ∷ []) lines ++ (10 ∷ [])

-- `_build_prometheus_payload`
unfoldable pub build_prometheus_payload :
    ℕ → (PeerInfo → ℕ) → List PeerInfo → (Text → Option Labels) → Text
unfolding metric_lines total_line
build_prometheus_payload now_ms clock peers labels =
    let (lines, active) = metric_lines now_ms clock peers labels in
    text_of_lines (lines ++ (total_line active now_ms ∷ []))

abbrev pub any_peer : List PeerInfo → Bool
any_peer peers = not (length peers == 0)

module _ (settings : Settings) (h : Host settings.wg_interface) where
  -- One pass of the loop of `run`. An error of `get_peers` is logged, and nothing changes.
  unfoldable pub poll :
      Option Text → ℕ → (PeerInfo → ℕ) → h.State → Database → Database × Option Text
  unfolding get_peers update_db build_prometheus_payload
  poll vm_url now_ms clock s db = elim (get_peers settings h s) [
    | none ↦ (db, none)
    | some peers ↦
        (let (db', labels) = update_db peers db in
          (
            db',
            (if truthy vm_url && any_peer peers
                then some (build_prometheus_payload now_ms clock peers labels)
                else none),
          ))
  ]
