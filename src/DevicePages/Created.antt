-- ===== src/DevicePages/Created.antt =====
-- The row that a create form makes has addresses that no device has.
use wiregui.Base.{
  ℕ, ◌+◌, ◌≤◌, ◌<◌, ◌≡◌, ◌⊎◌, refl, sym, ap, ◌∙◌, false, true, Option, none, some, List, Text, has,
  Outcome, done, failed, failed-ne-done, Option-cases, inl, inr, none-ne-some, some-eq,
}
use wiregui.Base.Int.{ℤ}
use wiregui.Settings.{Settings}
use wiregui.Models.{Device}
use wiregui.Database.{Database}
use wiregui.Nft.{Nftables}
use wiregui.Host.{Host}
use wiregui.Net.{Network, ipv4_network, ipv6_network}
use wiregui.Events.{World}
use wiregui.Allocation.{allocate_ipv4, allocate_ipv6, get_used_ips, first_host, pool_size}
use wiregui.Allocation.Search.{find_available-IsFree}
use wiregui.Api.{Draws}
use wiregui.DevicePages.Form.{
  DeviceForm, device_of_form, device_of_admin_form, with_numbers, put_subnets, row_of_form,
}
use wiregui.DevicePages.Handlers.{
  Visitor, State, get_server_public_key, after_commit, store_row, create_row, allocated_row,
}
use wiregui.DevicePages.Visits.{has_admin_role}
use wiregui.DevicePages.Addresses.{column, has-get_used_ips}
use wiregui.DevicePages.Effects.{id_of, IsNew, Effect, kept, added}

-- What is drawn for an address lies in the pool, if the network parses.
abbrev pub DrawsInside : Option Network → (ℕ → ℕ) → Type 0
DrawsInside o draw =
    (network : Network)
    → o ≡ some network
    → (i : ℕ) → (first_host network ≤ draw i) × (draw i < first_host network + pool_size network)

allocate_ipv4-IsNew :
    (ds : List Device) (cidr : Text) (draw : ℕ → ℕ) (a : Text)
    → DrawsInside (ipv4_network cidr) draw
    → allocate_ipv4 ds cidr draw ≡ done a
    → has a (column (λ d. d.ipv4) ds) ≡ false
unfolding allocate_ipv4
allocate_ipv4-IsNew ds cidr draw a inside h = elim (Option-cases (ipv4_network cidr)) [
  | inl bad ↦ absurd (failed-ne-done (rw (bad, allocate_ipv4) at h))
  | inr (network, there) ↦
      (let (k, shown, above, below, free) =
          find_available-IsFree network (get_used_ips (λ d. d.ipv4) ds) draw (inside network there)
            (rw (there, allocate_ipv4) at h) in
        sym (has-get_used_ips (λ d. d.ipv4) a ds) ∙ free)
]

allocate_ipv6-IsNew :
    (ds : List Device) (cidr : Text) (draw : ℕ → ℕ) (a : Text)
    → DrawsInside (ipv6_network cidr) draw
    → allocate_ipv6 ds cidr draw ≡ done a
    → has a (column (λ d. d.ipv6) ds) ≡ false
unfolding allocate_ipv6
allocate_ipv6-IsNew ds cidr draw a inside h = elim (Option-cases (ipv6_network cidr)) [
  | inl bad ↦ absurd (failed-ne-done (rw (bad, allocate_ipv6) at h))
  | inr (network, there) ↦
      (let (k, shown, above, below, free) =
          find_available-IsFree network (get_used_ips (λ d. d.ipv6) ds) draw (inside network there)
            (rw (there, allocate_ipv6) at h) in
        sym (has-get_used_ips (λ d. d.ipv6) a ds) ∙ free)
]

-- What a form makes of the draws and the addresses.
abbrev pub Makes : Draws → Text → (Text → Text → Option Device) → Type 0
Makes d owner row =
    (v4 v6 : Text) (r : Device)
    → row v4 v6 ≡ some r
    → (r.id ≡ d.id) × (r.ipv4 ≡ some v4) × (r.ipv6 ≡ some v6) × (r.user_id ≡ owner)

pub with_numbers-some {ℓ} :
    {A : Type ℓ} (mtu keepalive : Option (Option ℤ)) (f : Option ℤ → Option ℤ → A) (r : A)
    → with_numbers mtu keepalive f ≡ some r
    → (m : Option ℤ) × (k : Option ℤ) × (f m k ≡ r)
with_numbers-some none keepalive f r h = absurd (none-ne-some h)
with_numbers-some (some m) none f r h = absurd (none-ne-some h)
with_numbers-some (some m) (some k) f r h = (m, k, some-eq h)

pub put_subnets-some :
    (subnets : Option (List Text)) (o : Option Device) (r : Device)
    → put_subnets subnets o ≡ some r
    → (d : Device) × (ts : List Text) × (o ≡ some d) × (record d { allowed_subnets = ts } ≡ r)
put_subnets-some none o r h = absurd (none-ne-some h)
put_subnets-some (some ts) none r h = absurd (none-ne-some h)
put_subnets-some (some ts) (some d) r h = (d, ts, refl, some-eq h)

pub device_of_form-Makes :
    (form : DeviceForm) (d : Draws) (owner : Text) → Makes d owner (device_of_form form d owner)
unfolding device_of_form
device_of_form-Makes form d owner v4 v6 r h =
    let (m, k, is) = with_numbers-some _ _ (row_of_form form d owner v4 v6) r h in
    (
      ap (λ (w : Device). w.id) (sym is),
      ap (λ (w : Device). w.ipv4) (sym is),
      ap (λ (w : Device). w.ipv6) (sym is),
      ap (λ (w : Device). w.user_id) (sym is),
    )

pub device_of_admin_form-Makes :
    (form : DeviceForm) (d : Draws) (owner : Text)
    → Makes d owner (device_of_admin_form form d owner)
unfolding device_of_admin_form
device_of_admin_form-Makes form d owner v4 v6 r h =
    let (e, ts, made, is) = put_subnets-some _ _ r h in
    let (id, first, second, own) = device_of_form-Makes form d owner v4 v6 e made in
    (
      ap (λ (w : Device). w.id) (sym is) ∙ id,
      ap (λ (w : Device). w.ipv4) (sym is) ∙ first,
      ap (λ (w : Device). w.ipv6) (sym is) ∙ second,
      ap (λ (w : Device). w.user_id) (sym is) ∙ own,
    )

module _ (settings : Settings) (n : Nftables) (h : Host settings.wg_interface) (v : Visitor) where
  committed :
      (r : Device) (key : Text) (o : Option Text) (db : Database) (w : World settings n h)
      → (after_commit settings n h r key o db w).0.0 ≡ db
  committed r key none db w = refl
  committed r key (some server_key) db w = refl

  store_row-Effect :
      (key : Text) (o : Option Device) (s : State settings n h)
      → ((r : Device)
          → o ≡ some r
          → IsNew id_of r s.0.devices
            × IsNew (λ d. d.ipv4) r s.0.devices
            × IsNew (λ d. d.ipv6) r s.0.devices
            × ((has_admin_role v ≡ true) ⊎ (r.user_id ≡ v.user_id)))
      → Effect v s.0 (store_row settings n h key o s).0.0
  store_row-Effect key none (db, w) facts = kept refl
  store_row-Effect key (some r) (db, w) facts =
      let (id, first, second, may) = facts r refl in
      added r (committed r key (get_server_public_key db.configuration) _ w) id first second may

  allowed :
      (r : Device) (owner : Text)
      → r.user_id ≡ owner
      → (has_admin_role v ≡ true) ⊎ (owner ≡ v.user_id)
      → (has_admin_role v ≡ true) ⊎ (r.user_id ≡ v.user_id)
  allowed r owner own (inl admin) = inl admin
  allowed r owner own (inr is) = inr (own ∙ is)

  create_row-Effect :
      (d : Draws) (owner : Text) (row : Text → Text → Option Device) (key : Text)
      (o4 o6 : Outcome Text) (s : State settings n h)
      → Makes d owner row
      → has d.id (column id_of s.0.devices) ≡ false
      → ((a : Text) → o4 ≡ done a → has a (column (λ e. e.ipv4) s.0.devices) ≡ false)
      → ((a : Text) → o6 ≡ done a → has a (column (λ e. e.ipv6) s.0.devices) ≡ false)
      → (has_admin_role v ≡ true) ⊎ (owner ≡ v.user_id)
      → Effect v s.0 (create_row settings n h row key o4 o6 s).0.0
  create_row-Effect d owner row key (failed e) o6 s made id f4 f6 may = kept refl
  create_row-Effect d owner row key (done v4) (failed e) s made id f4 f6 may = kept refl
  create_row-Effect d owner row key (done v4) (done v6) s made id f4 f6 may =
      store_row-Effect key (row v4 v6) s (λ r is.
        (let (at_id, first, second, own) = made v4 v6 r is in
          (
            (d.id, ap some at_id, id),
            (v4, first, f4 v4 refl),
            (v6, second, f6 v6 refl),
            allowed r owner own may,
          )))

  pub allocated_row-Effect :
      (d : Draws) (owner : Text) (row : Text → Text → Option Device) (key : Text)
      (s : State settings n h)
      → Makes d owner row
      → has d.id (column id_of s.0.devices) ≡ false
      → DrawsInside (ipv4_network settings.wg_ipv4_network) d.draw_v4
      → DrawsInside (ipv6_network settings.wg_ipv6_network) d.draw_v6
      → (has_admin_role v ≡ true) ⊎ (owner ≡ v.user_id)
      → Effect v s.0 (allocated_row settings n h row key d s).0.0
  allocated_row-Effect d owner row key s made id in4 in6 may =
      create_row-Effect d owner row key _ _ s made id
        (λ a. allocate_ipv4-IsNew s.0.devices settings.wg_ipv4_network d.draw_v4 a in4)
        (λ a. allocate_ipv6-IsNew s.0.devices settings.wg_ipv6_network d.draw_v6 a in6) may
