-- ===== src/Reconcile/Converge.antt =====
-- `reconcile` makes the peers and the routes of the interface, and the chains, those of the
-- database.
use wiregui.Base.{
  ◌≡◌, refl, sym, ap, ◌∙◌, true, not, ◌&&◌, Option, none, some, List, [], ◌∷◌, Text, has,
  has-filter, All, is_some, arith, if◌then◌else◌,
}
use wiregui.Base.Distinct.{has_first, has_rest}
use wiregui.Settings.{Settings}
use wiregui.Models.{Device}
use wiregui.Database.{Database}
use wiregui.Nft.{Nftables}
use wiregui.Host.{Host, Peers, update_peer, set_peer, delete_peer}
use wiregui.Wireguard.{PeerInfo, minus, psk_given, add_peer, remove_peer, run_quiet}
use wiregui.Wireguard.Converge.{run_quiet-done, IsSyncable}
use wiregui.Events.{device_allowed_ips, all_relay_subnets, try_add_peer, try_remove_peer, or_logged}
use wiregui.Reconcile.Startup.{
  device_keys, peer_keys, device_map, add_mapped, add_missing, remove_orphans, reconcile_peers,
}
use wiregui.Reconcile.Missing.{
  is_some-device_map, device_map-All, one_added, added_peers, added_peers-nil, added_peers-cons,
  reconciled_peers, settled,
}

module _ (settings : Settings) (n : Nftables) (h : Host settings.wg_interface) where
  open h use {State, peers, routes, accepts, set_peer_law, delete_peer_law}

  -- The tool takes the command that sets the peer, or removes it.
  abbrev pub Sets : Device → Type 0
  Sets d =
      accepts (
        set_peer settings.wg_interface d.public_key (device_allowed_ips d)
          (psk_given settings h d.preshared_key))
      ≡ true

  abbrev pub Deletes : Text → Type 0
  Deletes k = accepts (delete_peer settings.wg_interface k) ≡ true

  try_add_peer_lem :
      (d : Device) (s : State)
      → Sets d
      → (peers (try_add_peer settings n h d s)
          ≡ update_peer (peers s) d.public_key (some (device_allowed_ips d)))
        × (routes (try_add_peer settings n h d s) ≡ routes s)
  unfolding try_add_peer add_peer run_quiet
  try_add_peer_lem d s ok =
      let (s1, ran, p, r) =
        set_peer_law d.public_key (device_allowed_ips d) (psk_given settings h d.preshared_key) s
          ok in
      rw (ap (or_logged settings n h s) (run_quiet-done settings h _ s s1 [] ran), try_add_peer)
        (p, r)

  pub try_remove_peer_lem :
      (k : Text) (s : State)
      → Deletes k
      → (peers (try_remove_peer settings n h k s) ≡ update_peer (peers s) k none)
        × (routes (try_remove_peer settings n h k s) ≡ routes s)
  unfolding try_remove_peer remove_peer run_quiet
  try_remove_peer_lem k s ok =
      let (s1, ran, p, r) = delete_peer_law k s ok in
      rw (ap (or_logged settings n h s) (run_quiet-done settings h _ s s1 [] ran), try_remove_peer)
        (p, r)

  add_mapped_lem :
      (o : Option Device) (k : Text) (s : State)
      → ((d : Device) → o ≡ some d → (d.public_key ≡ k) × Sets d)
      → (peers (add_mapped settings n h o s) ≡ one_added o k (peers s))
        × (routes (add_mapped settings n h o s) ≡ routes s)
  add_mapped_lem none k s ok = (refl, refl)
  add_mapped_lem (some d) k s ok =
      let (at_key, sets) = ok d refl in
      let (p, r) = try_add_peer_lem d s sets in
      (p ∙ ap (λ j. update_peer (peers s) j (some (device_allowed_ips d))) at_key, r)

  add_missing_lem :
      (ds : List Device) (ks : List Text) (s : State)
      → All Sets ds
      → ((j : Text)
          → peers (add_missing settings n h ds ks s) j
            ≡ added_peers (device_map ds j) ks (peers s) j)
        × (routes (add_missing settings n h ds ks s) ≡ routes s)
  unfolding add_missing
  add_missing_lem ds [] s ok = (λ j. sym (added_peers-nil (device_map ds j) (peers s) j), refl)
  add_missing_lem ds (k ∷ ks) s ok =
      let (p, r) = add_mapped_lem (device_map ds k) k s (λ d. device_map-All Sets ds k d ok) in
      let (p2, r2) = add_missing_lem ds ks (add_mapped settings n h (device_map ds k) s) ok in
      (
        λ j.
            p2 j
            ∙ ap (λ (v : Peers). added_peers (device_map ds j) ks v j) p
            ∙ added_peers-cons ds k ks (peers s) j,
        r2 ∙ r,
      )

  remove_orphans_lem :
      (ks : List Text) (s : State)
      → ((k : Text) → has k ks ≡ true → Deletes k)
      → ((j : Text)
          → peers (remove_orphans settings n h ks s) j ≡ (if has j ks then none else peers s j))
        × (routes (remove_orphans settings n h ks s) ≡ routes s)
  unfolding remove_orphans
  remove_orphans_lem [] s ok = (λ j. refl, refl)
  remove_orphans_lem (k ∷ ks) s ok =
      let (p, r) = try_remove_peer_lem k s (ok k (has_first k ks)) in
      let (p2, r2) =
        remove_orphans_lem ks (try_remove_peer settings n h k s)
          (λ j m. ok j (has_rest k ks j m)) in
      (λ j. p2 j ∙ ap (λ (v : Peers). if has j ks then none else v j) p ∙ ground arith, r2 ∙ r)

  -- What a reconciliation relies on: the dump lists the peers that are there, and the tools take
  -- the commands that come up.
  pub record IsReconcilable (db : Database) (current : List PeerInfo) (s : State) : Type 0 where
    pub listed : (k : Text) → has k (peer_keys current) ≡ is_some (peers s k)
    pub sets : All Sets db.devices
    pub deletes : (k : Text) → is_some (peers s k) ≡ true → Deletes k
    pub syncable :
        (s' : State)
        → routes s' ≡ routes s
        → IsSyncable settings h (all_relay_subnets db.devices) s'

  pub reconcile_peers_lem :
      (db : Database) (current : List PeerInfo) (s : State)
      → IsReconcilable db current s
      → ((k : Text)
          → peers (reconcile_peers settings n h db.devices current s) k
            ≡ reconciled_peers db.devices (peers s) k)
        × (routes (reconcile_peers settings n h db.devices current s) ≡ routes s)
  unfolding reconcile_peers
  reconcile_peers_lem db current s ok =
      let missing = minus (device_keys db.devices) (peer_keys current) in
      let orphans = minus (peer_keys current) (device_keys db.devices) in
      let (p, r) = add_missing_lem db.devices missing s ok.sets in
      let (p2, r2) =
        remove_orphans_lem orphans (add_missing settings n h db.devices missing s)
          (λ k m. ok.deletes k (ground (arith, has-orphans k))) in
      (
        λ k.
            p2 k
            ∙ ap (λ x. if has k orphans then none else x) (p k)
            ∙ settled (device_map db.devices k) missing orphans (peers s) k (has-missing k)
                (has-orphans k),
        r2 ∙ r,
      )
    where
      has-missing :
          (k : Text)
          → has k (minus (device_keys db.devices) (peer_keys current))
            ≡ (is_some (device_map db.devices k) && not (is_some (peers s k)))
      has-missing k =
          has-filter k (λ j. not (has j (peer_keys current))) (device_keys db.devices)
          ∙ rw (is_some-device_map db.devices k, ok.listed k) refl

      has-orphans :
          (k : Text)
          → has k (minus (peer_keys current) (device_keys db.devices))
            ≡ (is_some (peers s k) && not (is_some (device_map db.devices k)))
      has-orphans k =
          has-filter k (λ j. not (has j (device_keys db.devices))) (peer_keys current)
          ∙ rw (is_some-device_map db.devices k, ok.listed k) refl
