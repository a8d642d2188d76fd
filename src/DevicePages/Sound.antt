-- ===== src/DevicePages/Sound.antt =====
-- Runs of a visitor on the pages of the devices.
use wiregui.Base.{
  ◌≡◌, refl, sym, ap, ◌∙◌, subst, false, true, ◌||◌, Option, none, some, List, [], ◌∷◌, Text, has,
  strip, length, ◌==◌, eqb, eqb-eq, if◌then◌else◌, Option-cases, Bool-cases, inl, inr, none-ne-some,
  some-eq,
}
use wiregui.Base.Distinct.{Distinct}
use wiregui.Settings.{Settings}
use wiregui.Models.{Device}
use wiregui.Database.{find}
use wiregui.Nft.{Nftables}
use wiregui.Host.{Host}
use wiregui.Net.{ipv4_network, ipv6_network}
use wiregui.Api.{Draws}
use wiregui.Api.Rows.{found-Owned}
use wiregui.DevicePages.Form.{
  DeviceForm, device_of_form, device_of_admin_form, edited_with, edited_device, edited_by_admin,
}
use wiregui.DevicePages.Handlers.{
  Visitor, State, create_own_device, create_device_for, drop_found, delete_own_device,
  delete_any_device, edit_found, save_edit, save_admin_edit,
}
use wiregui.DevicePages.Visits.{
  Page, elsewhere, own_devices, all_devices, one_device, Action, visit_own, visit_all, visit_one,
  create, delete, save, has_admin_role, act,
}
use wiregui.DevicePages.Addresses.{column}
use wiregui.DevicePages.Effects.{id_of, IsSound, column-id_of, May, Effect, kept, replaced, removed}
use wiregui.DevicePages.Created.{
  DrawsInside, device_of_form-Makes, device_of_admin_form-Makes, with_numbers-some,
  put_subnets-some, allocated_row-Effect,
}

-- What an edit may not change.
abbrev Keeps : (Device → Option Device) → Type 0
Keeps edit =
    (d r : Device)
    → edit d ≡ some r
    → (d.id ≡ r.id) × (r.ipv4 ≡ d.ipv4) × (r.ipv6 ≡ d.ipv6) × (r.user_id ≡ d.user_id)

edited_device-Keeps : (form : DeviceForm) → Keeps (edited_device form)
unfolding edited_device
edited_device-Keeps form d r h =
    let (m, k, is) = with_numbers-some _ _ (edited_with form d) r h in
    (
      ap (λ (w : Device). w.id) is,
      ap (λ (w : Device). w.ipv4) (sym is),
      ap (λ (w : Device). w.ipv6) (sym is),
      ap (λ (w : Device). w.user_id) (sym is),
    )

edited_by_admin-Keeps : (form : DeviceForm) → Keeps (edited_by_admin form)
unfolding edited_by_admin
edited_by_admin-Keeps form d r h =
    let (e, ts, made, is) = put_subnets-some _ _ r h in
    let (id, first, second, own) = edited_device-Keeps form d e made in
    (
      id ∙ ap (λ (w : Device). w.id) is,
      ap (λ (w : Device). w.ipv4) (sym is) ∙ first,
      ap (λ (w : Device). w.ipv6) (sym is) ∙ second,
      ap (λ (w : Device). w.user_id) (sym is) ∙ own,
    )

find-id : (k : Text) (d : Device) (ds : List Device) → find (λ e. e.id) k ds ≡ some d → d.id ≡ k
unfolding find
find-id k d [] found = absurd (none-ne-some found)
find-id k d (e ∷ es) found = elim (Bool-cases (eqb e.id k)) [
  | inl same ↦
      ap (λ (w : Device). w.id)
        (sym (some-eq (ap (λ b. if b then some e else find (λ w. w.id) k es) (sym same) ∙ found)))
      ∙ eqb-eq e.id k same
  | inr other ↦
      find-id k d es (ap (λ b. if b then some e else find (λ w. w.id) k es) (sym other) ∙ found)
]

module _ (settings : Settings) (n : Nftables) (h : Host settings.wg_interface) (v : Visitor) where
  edit_found-Effect :
      (edit : Device → Option Device) (k : Text) (o : Option Device) (s : State settings n h)
      → find (λ e. e.id) k s.0.devices ≡ o
      → Keeps edit
      → May v k s.0.devices
      → Effect v s.0 (edit_found settings n h edit o s).0
  edit_found-Effect edit k none s found keeps may = kept refl
  edit_found-Effect edit k (some d) s found keeps may = elim (Option-cases (edit d)) [
    | inl bad ↦ rw bad (kept refl)
    | inr (r, is) ↦
        (let same = keeps d r is in
          let at_k = sym (find-id k d s.0.devices found) ∙ same.0 in
          rw is (
            replaced d r refl (subst (λ t. find (λ e. e.id) t s.0.devices ≡ some d) at_k found) same
              (subst (λ t. May v t s.0.devices) at_k may)))
  ]

  drop_found-Effect :
      (may : Device → _) (k : Text) (o : Option Device) (s : State settings n h)
      → find (λ e. e.id) k s.0.devices ≡ o
      → ((d : Device) → o ≡ some d → may d ≡ true → May v k s.0.devices)
      → Effect v s.0 (drop_found settings n h may o s).0
  drop_found-Effect may k none s found ok = kept refl
  drop_found-Effect may k (some d) s found ok = elim (Bool-cases (may d)) [
    | inl yes_may ↦ rw yes_may (
        removed d.id refl (
          subst (λ t. May v t s.0.devices) (sym (find-id k d s.0.devices found))
            (ok d refl yes_may)))
    | inr not_may ↦ rw not_may (kept refl)
  ]

  -- What is known of the page that is open.
  abbrev pub Guarded : Page → List Device → Type 0
  Guarded elsewhere ds = Unit
  Guarded own_devices ds = Unit
  Guarded all_devices ds = has_admin_role v ≡ true
  Guarded (one_device k) ds = May v k ds

  -- The id that is drawn for a new row is new, and its addresses are drawn from the pools.
  abbrev pub IsFresh : Action → List Device → Type 0
  IsFresh (create owner form d private_key) ds =
      (has d.id (column id_of ds) ≡ false)
      × DrawsInside (ipv4_network settings.wg_ipv4_network) d.draw_v4
      × DrawsInside (ipv6_network settings.wg_ipv6_network) d.draw_v6
  IsFresh visit_own ds = Unit
  IsFresh visit_all ds = Unit
  IsFresh (visit_one k) ds = Unit
  IsFresh (delete k) ds = Unit
  IsFresh (save k form) ds = Unit

  create-Effect :
      (page : Page) (owner : Text) (form : DeviceForm) (d : Draws) (key : Text)
      (s : State settings n h)
      → Guarded page s.0.devices
      → IsFresh (create owner form d key) s.0.devices
      → Effect v s.0 (act settings n h v (create owner form d key) (page, s)).1.0
  unfolding act create_own_device create_device_for
  create-Effect elsewhere owner form d key s guarded fresh = kept refl
  create-Effect (one_device k) owner form d key s guarded fresh = kept refl
  create-Effect own_devices owner form d key s guarded (id, in4, in6) =
      elim (Bool-cases (length (strip form.name) == 0)) [
        | inl blank ↦ rw blank (kept refl)
        | inr named ↦ rw named (
            allocated_row-Effect settings n h v d v.user_id (device_of_form form d v.user_id) key s
              (device_of_form-Makes form d v.user_id) id in4 in6 (inr refl))
      ]
  create-Effect all_devices owner form d key s admin (id, in4, in6) =
      elim (Bool-cases ((length (strip form.name) == 0) || (length owner == 0))) [
        | inl blank ↦ rw blank (kept refl)
        | inr named ↦ rw named (
            allocated_row-Effect settings n h v d owner (device_of_admin_form form d owner) key s
              (device_of_admin_form-Makes form d owner) id in4 in6 (inl admin))
      ]

  delete-Effect :
      (page : Page) (k : Text) (s : State settings n h)
      → Guarded page s.0.devices
      → IsSound s.0.devices
      → Effect v s.0 (act settings n h v (delete k) (page, s)).1.0
  unfolding act delete_own_device delete_any_device
  delete-Effect elsewhere k s guarded sound = kept refl
  delete-Effect (one_device j) k s guarded sound =
      drop_found-Effect (λ d. true) j _ s refl (λ d there may. guarded)
  delete-Effect all_devices k s admin sound =
      drop_found-Effect (λ d. true) k _ s refl (λ d there may. inl admin)
  delete-Effect own_devices k s guarded sound =
      drop_found-Effect (λ d. eqb d.user_id v.user_id) k _ s refl
        (λ d there own.
          inr
            (found-Owned v.user_id k d s.0.devices
              (subst Distinct (column-id_of s.0.devices) sound.ids) there own).1)

  save-Effect :
      (page : Page) (k : Text) (form : DeviceForm) (s : State settings n h)
      → Guarded page s.0.devices
      → Effect v s.0 (act settings n h v (save k form) (page, s)).1.0
  unfolding act save_edit save_admin_edit
  save-Effect elsewhere k form s guarded = kept refl
  save-Effect own_devices k form s guarded = kept refl
  save-Effect (one_device j) k form s guarded =
      edit_found-Effect (edited_device form) j _ s refl (edited_device-Keeps form) guarded
  save-Effect all_devices k form s admin =
      edit_found-Effect (edited_by_admin form) k _ s refl (edited_by_admin-Keeps form) (inl admin)

  pub act-Effect :
      (a : Action) (page : Page) (s : State settings n h)
      → Guarded page s.0.devices
      → IsSound s.0.devices
      → IsFresh a s.0.devices
      → Effect v s.0 (act settings n h v a (page, s)).1.0
  act-Effect visit_own page s guarded sound fresh = unfold act in kept refl
  act-Effect visit_all page s guarded sound fresh = unfold act in kept refl
  act-Effect (visit_one k) page s guarded sound fresh = unfold act in kept refl
  act-Effect (create owner form d key) page s guarded sound fresh =
      create-Effect page owner form d key s guarded fresh
  act-Effect (delete k) page s guarded sound fresh = delete-Effect page k s guarded sound
  act-Effect (save k form) page s guarded sound fresh = save-Effect page k form s guarded
