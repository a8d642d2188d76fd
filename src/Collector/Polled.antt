-- ===== src/Collector/Polled.antt =====
-- What a poll of wiregui/collector.py writes and reports, against wiregui/tasks/stats.py and
-- against the rows of the database.
use wiregui.Base.{
  ◌≡◌, refl, ap, truthy, ◌++◌, ◌∙◌, ℕ, Bool, true, ◌&&◌, ◌||◌, Option, none, some, List, [], ◌∷◌,
  map, Text, All, eqb, has, filter, length, is_some, arith, Bool-cases, inl, inr, if◌then◌else◌,
}
use wiregui.Base.Distinct.{has_first, has_rest}
use wiregui.Settings.{Settings}
use wiregui.Models.{User, Device}
use wiregui.Database.{Database}
use wiregui.Host.{Host}
use wiregui.Wireguard.{PeerInfo, get_peers}
use wiregui.Tasks.{peer_map, with_stats, update_stats}
use wiregui.Collector.{
  Labels, labels_of, owner_of, with_row, or_else, labels_for, update_db, is_connected, metric_lines,
  poll, total_line, text_of_lines, any_peer, build_prometheus_payload,
}

-- Every device has its user, as the foreign key of the column demands.
abbrev pub HasOwners : Database → Type 0
HasOwners db = All (λ d. is_some (owner_of db.users d) ≡ true) db.devices

abbrev pub keys_of : List PeerInfo → List Text
keys_of peers = map (λ p. p.public_key) peers

abbrev pub row_keys : Database → List Text
row_keys db = map (λ d. d.public_key) db.devices

-- The peer is of a device, and its handshake is recent.
abbrev pub counted : (PeerInfo → ℕ) → Database → PeerInfo → Bool
counted clock db p = has p.public_key (row_keys db) && is_connected (clock p) p.latest_handshake

-- The payload whose total is the number of peers that have a device and a recent handshake.
abbrev pub counting_payload : ℕ → (PeerInfo → ℕ) → Database → List PeerInfo → Text
counting_payload now_ms clock db peers = text_of_lines (
    (metric_lines now_ms clock peers (update_db peers db).1).0
    ++ (total_line (length (filter (counted clock db) peers)) now_ms ∷ []))

with_row_lem :
    (o : Option User) (peer : Option PeerInfo) (d : Device)
    → is_some o ≡ true
    → with_row o peer d ≡ with_stats peer d
with_row_lem (some u) peer d h = refl
with_row_lem none peer d h = ground arith

map-with_row :
    (users : List User) (peers : List PeerInfo) (ds : List Device)
    → All (λ d. is_some (owner_of users d) ≡ true) ds
    → map (λ d. with_row (owner_of users d) (peer_map peers d.public_key) d) ds
      ≡ map (λ d. with_stats (peer_map peers d.public_key) d) ds
map-with_row users peers [] h = refl
map-with_row users peers (d ∷ ds) h =
    rw
      (
        with_row_lem (owner_of users d) (peer_map peers d.public_key) d h.0,
        map-with_row users peers ds h.1,
      )
      refl

is_some-peer_map :
    (peers : List PeerInfo) (k : Text) → is_some (peer_map peers k) ≡ has k (keys_of peers)
is_some-peer_map [] k = refl
is_some-peer_map (p ∷ ps) k = ground (arith, is_some-peer_map ps k)

is_some-labels_of : (d : Device) (o : Option User) → is_some (labels_of d o) ≡ is_some o
is_some-labels_of d none = refl
is_some-labels_of d (some u) = refl

is_some-or_else : (a b : Option Labels) → is_some (or_else a b) ≡ (is_some b || is_some a)
is_some-or_else (some l) none = refl
is_some-or_else (some l) (some m) = refl
is_some-or_else none none = refl
is_some-or_else none (some m) = refl

is_some-labels_for :
    (users : List User) (p : PeerInfo) (ds : List Device) (k : Text)
    → All (λ d. is_some (owner_of users d) ≡ true) ds
    → is_some (labels_for users (some p) ds k) ≡ has k (map (λ (d : Device). d.public_key) ds)
unfolding labels_for
is_some-labels_for users p [] k h = refl
is_some-labels_for users p (d ∷ ds) k h =
    is_some-or_else (labels_for users (some p) ds k) _
    ∙ rw (is_some-labels_for users p ds k h.1) (elim (Bool-cases (eqb d.public_key k)) [
      | inl same ↦ rw (same, is_some-labels_of d (owner_of users d), h.0) refl
      | inr other ↦ rw other refl
    ])

is_some-labels :
    (db : Database) (o : Option PeerInfo) (k : Text)
    → HasOwners db
    → is_some (labels_for db.users o db.devices k) ≡ (is_some o && has k (row_keys db))
unfolding labels_for
is_some-labels db none k h = refl
is_some-labels db (some p) k h = is_some-labels_for db.users p db.devices k h

labelled_keys :
    (peers : List PeerInfo) (db : Database)
    → HasOwners db
    → (k : Text)
    → is_some ((update_db peers db).1 k) ≡ (has k (keys_of peers) && has k (row_keys db))
unfolding update_db
labelled_keys peers db h k =
    is_some-labels db (peer_map peers k) k h ∙ rw (is_some-peer_map peers k) refl

-- `active_count` counts the peers with labels.
metric_lines-active :
    (now_ms : ℕ) (clock : PeerInfo → ℕ) (ps : List PeerInfo) (labels : Text → Option Labels)
    → (metric_lines now_ms clock ps labels).1
      ≡ length (
          filter
            (λ p. is_some (labels p.public_key) && is_connected (clock p) p.latest_handshake)
            ps)
unfolding metric_lines
metric_lines-active now_ms clock [] labels = refl
metric_lines-active now_ms clock (p ∷ ps) labels =
    ground (arith, metric_lines-active now_ms clock ps labels)

filter-same :
    (f g : PeerInfo → Bool) (ps : List PeerInfo)
    → All (λ p. f p ≡ g p) ps
    → filter f ps ≡ filter g ps
filter-same f g [] h = refl
filter-same f g (p ∷ ps) h = rw (h.0, filter-same f g ps h.1) refl

All-keys :
    (f : Text → Bool) (ps : List PeerInfo)
    → ((k : Text) → has k (keys_of ps) ≡ true → f k ≡ true)
    → All (λ p. f p.public_key ≡ true) ps
All-keys f [] h = tt
All-keys f (p ∷ ps) h = (
  h p.public_key (has_first p.public_key _),
  All-keys f ps (λ k there. h k (has_rest p.public_key _ k there)),
)

All-counted :
    (db : Database) (clock : PeerInfo → ℕ) (labels : Text → Option Labels) (known : Text → Bool)
    (ps : List PeerInfo)
    → ((k : Text) → is_some (labels k) ≡ (known k && has k (row_keys db)))
    → All (λ p. known p.public_key ≡ true) ps
    → All
        (λ p.
          (is_some (labels p.public_key) && is_connected (clock p) p.latest_handshake)
          ≡ counted clock db p)
        ps
All-counted db clock labels known [] h all = tt
All-counted db clock labels known (p ∷ ps) h all =
    (rw (h p.public_key, all.0) refl, All-counted db clock labels known ps h all.1)

-- What a poll gives, by the peers that were read.
abbrev pub Polled :
    Option Text
    → ℕ
    → (PeerInfo → ℕ)
    → Database
    → Database × Option Text
    → Option (List PeerInfo)
    → Type 0
Polled vm_url now_ms clock db r none = r ≡ (db, none)
Polled vm_url now_ms clock db r (some peers) =
    (r.0 ≡ update_stats peers db)
    × (r.1 ≡ (
        if truthy vm_url && any_peer peers
        then some (counting_payload now_ms clock db peers)
        else none))
    × ((k : Text)
        → is_some ((update_db peers db).1 k) ≡ (has k (keys_of peers) && has k (row_keys db)))

metric_lines-counted :
    (now_ms : ℕ) (clock : PeerInfo → ℕ) (db : Database) (peers : List PeerInfo)
    → HasOwners db
    → (metric_lines now_ms clock peers (update_db peers db).1).1
      ≡ length (filter (counted clock db) peers)
metric_lines-counted now_ms clock db peers owned =
    metric_lines-active now_ms clock peers (update_db peers db).1
    ∙ ap length (
        filter-same _ (counted clock db) peers (
          All-counted db clock (update_db peers db).1 _ peers (labelled_keys peers db owned)
            (All-keys _ peers (λ k there. there))))

build_prometheus_payload-counted :
    (now_ms : ℕ) (clock : PeerInfo → ℕ) (db : Database) (peers : List PeerInfo)
    → HasOwners db
    → build_prometheus_payload now_ms clock peers (update_db peers db).1
      ≡ counting_payload now_ms clock db peers
unfolding build_prometheus_payload
build_prometheus_payload-counted now_ms clock db peers owned =
    ap
      (λ n.
        text_of_lines (
          (metric_lines now_ms clock peers (update_db peers db).1).0 ++ (total_line n now_ms ∷ [])))
      (metric_lines-counted now_ms clock db peers owned)

update_db-devices :
    (peers : List PeerInfo) (db : Database)
    → HasOwners db
    → (update_db peers db).0 ≡ update_stats peers db
unfolding update_db update_stats
update_db-devices peers db owned =
    ap (λ ds. record db { devices = ds }) (map-with_row db.users peers db.devices owned)

module _ (settings : Settings) (h : Host settings.wg_interface) where
  -- While every device has its user, a poll that reads the peers leaves the database that the
  -- statistics task would leave. It has labels for exactly the keys that a peer and a device have,
  -- and where there is an address and a peer it sends the lines of these peers and, as the total,
  -- the number of peers that have a device and a handshake less than 180 seconds ago. A poll that
  -- cannot read the peers changes and sends nothing.
  pub poll_lem :
      (vm_url : Option Text) (now_ms : ℕ) (clock : PeerInfo → ℕ) (s : h.State) (db : Database)
      → HasOwners db
      → Polled vm_url now_ms clock db
          (poll settings h vm_url now_ms clock s db)
          (get_peers settings h s)
  unfolding poll
  poll_lem vm_url now_ms clock s db owned =
      elim (get_peers settings h s)
        as (λ o.
          Polled vm_url now_ms clock db
            (elim o [
              | none ↦ (db, none)
              | some peers ↦ (
                (update_db peers db).0,
                (if truthy vm_url && any_peer peers
                    then some (build_prometheus_payload now_ms clock peers (update_db peers db).1)
                    else none),
              )
            ])
            o) [
              | none ↦ refl
              | some peers ↦ (
                update_db-devices peers db owned,
                ap (λ t. if truthy vm_url && any_peer peers then some t else none)
                    (build_prometheus_payload-counted now_ms clock db peers owned),
                labelled_keys peers db owned,
              )
            ]
