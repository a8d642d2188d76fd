-- ===== src/Reconcile/Missing.antt =====
-- What adding the missing peers of wiregui/tasks/reconcile.py comes to, one key at a time.
use wiregui.Base.{
  ◌≡◌, refl, sym, ap, ◌∙◌, false, not, ◌&&◌, Option, none, some, List, [], ◌∷◌, Text, has, has-add,
  All, is_some, arith, if◌then◌else◌, eqb, eqb-eq, eqb_refl, inl, inr, none-ne-some, some-eq,
  Bool-cases, ◌⊎◌, subst,
}
use wiregui.Models.{Device}
use wiregui.Host.{Peers, update_peer}
use wiregui.Events.{device_allowed_ips}
use wiregui.Reconcile.Startup.{device_keys, device_map, or_earlier}

pub is_some-device_map :
    (ds : List Device) (k : Text) → is_some (device_map ds k) ≡ has k (device_keys ds)
unfolding device_keys
is_some-device_map [] k = refl
is_some-device_map (d ∷ ds) k =
    ground (arith, is_some-device_map ds k, has-add k d.public_key (device_keys ds))

pub or_earlier-cases :
    (o : Option Device) (e d : Device) (k : Text)
    → or_earlier o e k ≡ some d
    → (o ≡ some d) ⊎ ((e.public_key ≡ k) × (e ≡ d))
or_earlier-cases (some f) e d k h = inl h
or_earlier-cases none e d k h = elim (Bool-cases (eqb e.public_key k)) [
  | inl same ↦
      inr
        (eqb-eq e.public_key k same, some-eq (ap (λ b. if b then some e else none) (sym same) ∙ h))
  | inr other ↦ absurd (none-ne-some (ap (λ b. if b then some e else none) (sym other) ∙ h))
]

-- A device that the map gives has the key and is one of the list.
pub device_map-All :
    (P : Device → Type 0) (ds : List Device) (k : Text) (d : Device)
    → All P ds
    → device_map ds k ≡ some d
    → (d.public_key ≡ k) × P d
device_map-All P [] k d ps h = absurd (none-ne-some h)
device_map-All P (e ∷ ds) k d ps h = elim (or_earlier-cases (device_map ds k) e d k h) [
  | inl later ↦ device_map-All P ds k d ps.1 later
  | inr first ↦ (ap (λ (f : Device). f.public_key) (sym first.1) ∙ first.0, subst P first.1 ps.0)
]

-- The peers after one device is added, and at the key `j` after the loop that adds those of `ks`.
abbrev pub one_added : Option Device → Text → Peers → Peers
one_added none k v = v
one_added (some d) k v = update_peer v k (some (device_allowed_ips d))

abbrev pub added_peers : Option Device → List Text → Peers → Text → Option (List Text)
added_peers none ks v j = v j
added_peers (some d) ks v j = if has j ks then some (device_allowed_ips d) else v j

pub added_peers-nil : (o : Option Device) (v : Peers) (j : Text) → added_peers o [] v j ≡ v j
added_peers-nil none v j = refl
added_peers-nil (some d) v j = refl

pub added_peers-same :
    (o : Option Device) (k : Text) (ks : List Text) (v : Peers)
    → added_peers o ks (one_added o k v) k ≡ added_peers o (k ∷ ks) v k
added_peers-same none k ks v = refl
added_peers-same (some d) k ks v = ground (arith, eqb_refl k)

pub added_peers-other :
    (o p : Option Device) (k j : Text) (ks : List Text) (v : Peers)
    → eqb k j ≡ false
    → added_peers p ks (one_added o k v) j ≡ added_peers p (k ∷ ks) v j
added_peers-other none none k j ks v other = refl
added_peers-other (some d) none k j ks v other = ground arith
added_peers-other none (some e) k j ks v other = ground arith
added_peers-other (some d) (some e) k j ks v other = ground arith

pub added_peers-cons :
    (ds : List Device) (k : Text) (ks : List Text) (v : Peers) (j : Text)
    → added_peers (device_map ds j) ks (one_added (device_map ds k) k v) j
      ≡ added_peers (device_map ds j) (k ∷ ks) v j
added_peers-cons ds k ks v j = elim (Bool-cases (eqb k j)) [
  | inl same ↦
      subst
        (λ i.
          added_peers (device_map ds i) ks (one_added (device_map ds k) k v) i
          ≡ added_peers (device_map ds i) (k ∷ ks) v i)
        (eqb-eq k j same) (added_peers-same (device_map ds k) k ks v)
  | inr other ↦ added_peers-other (device_map ds k) (device_map ds j) k j ks v other
]

-- The addresses that a peer has after `reconcile`: those of the device that has come last, unless
-- the peer was there before, and none for a peer that is of no device.
abbrev pub reconciled_peer : Option Device → Option (List Text) → Option (List Text)
reconciled_peer none before = none
reconciled_peer (some d) none = some (device_allowed_ips d)
reconciled_peer (some d) (some ips) = some ips

abbrev pub reconciled_peers : List Device → Peers → Peers
reconciled_peers ds v k = reconciled_peer (device_map ds k) (v k)

pub settled :
    (o : Option Device) (missing orphans : List Text) (v : Peers) (j : Text)
    → has j missing ≡ (is_some o && not (is_some (v j)))
    → has j orphans ≡ (is_some (v j) && not (is_some o))
    → (if has j orphans then none else added_peers o missing v j) ≡ reconciled_peer o (v j)
settled none missing orphans v j m r = ground arith
settled (some d) missing orphans v j m r = ground arith
