-- ===== src/DevicePages/Runs.antt =====
-- Whole runs of a visitor: no address is given twice, and what belongs to others stays.
use wiregui.Base.{
  ◌≡◌, refl, sym, ap, ◌∙◌, subst, false, true, Option, none, some, List, [], ◌∷◌, Text, eqb,
  eqb_refl, Bool-cases, inl, inr, filter, not, true-ne-false,
}
use wiregui.Base.Distinct.{Distinct}
use wiregui.Settings.{Settings}
use wiregui.Models.{Device}
use wiregui.Database.{Database, find, put_row, delete_row}
use wiregui.Nft.{Nftables}
use wiregui.Host.{Host}
use wiregui.Api.Rows.{Owned, found-Owned}
use wiregui.DevicePages.Handlers.{Visitor, State, opens}
use wiregui.DevicePages.Visits.{
  Page, elsewhere, own_devices, all_devices, one_device, Action, visit_own, visit_all, visit_one,
  create, delete, save, has_admin_role, Visit, act, act_all,
}
use wiregui.DevicePages.Effects.{
  IsSound, column-id_of, May, Effect, kept, added, replaced, removed, Effect-IsSound, IsConfined,
  Effect-IsConfined, found_owner,
}
use wiregui.DevicePages.Sound.{Guarded, IsFresh, act-Effect}

Owned-put_row :
    (u k : Text) (r : Device) (ds : List Device)
    → eqb r.user_id u ≡ true
    → Owned u k ds
    → Owned u k (put_row (λ e. e.id) r ds)
unfolding put_row
Owned-put_row u k r [] own owned = tt
Owned-put_row u k r (e ∷ es) own owned = elim (Bool-cases (eqb e.id r.id)) [
  | inl same ↦ rw same ((λ _. own), Owned-put_row u k r es own owned.1)
  | inr other ↦ rw other (owned.0, Owned-put_row u k r es own owned.1)
]

Owned-filter :
    (u k : Text) (p : Device → _) (ds : List Device) → Owned u k ds → Owned u k (filter p ds)
Owned-filter u k p [] owned = tt
Owned-filter u k p (e ∷ es) owned = elim (Bool-cases (p e)) [
  | inl keep ↦ rw keep (owned.0, Owned-filter u k p es owned.1)
  | inr drop ↦ rw drop (Owned-filter u k p es owned.1)
]

-- What a visitor may write stays so, whatever the visitor does.
Effect-May :
    {v : Visitor} {db db' : Database} (k : Text)
    → Effect v db db'
    → May v k db.devices
    → May v k db'.devices
unfolding delete_row
Effect-May k e (inl admin) = inl admin
Effect-May k (kept same) (inr owned) = rw same (inr owned)
Effect-May k (added r same id v4 v6 (inl admin)) (inr owned) = inl admin
Effect-May {v} k (added r same id v4 v6 (inr own)) (inr owned) =
    rw same (inr ((λ _. ap (λ t. eqb t v.user_id) own ∙ eqb_refl v.user_id), owned))
Effect-May k (replaced d r same found fields (inl admin)) (inr owned) = inl admin
Effect-May {v} {db} k (replaced d r same found (at_id, v4, v6, owner) (inr mine)) (inr owned) =
    rw same (
      inr (
        Owned-put_row v.user_id k r db.devices
          (ap (λ t. eqb t v.user_id) owner ∙ found_owner v.user_id r.id d db.devices found mine)
          owned))
Effect-May {v} {db} k (removed j same may) (inr owned) =
    rw same (inr (Owned-filter v.user_id k (λ e. not (eqb e.id j)) db.devices owned))

module _ (settings : Settings) (n : Nftables) (h : Host settings.wg_interface) (v : Visitor) where
  opens-May :
      (k : Text) (o : Option Device) (db : Database)
      → find (λ e. e.id) k db.devices ≡ o
      → IsSound db.devices
      → opens settings n h v k db ≡ true
      → May v k db.devices
  unfolding opens
  opens-May k none db there sound h = absurd (true-ne-false (sym h ∙ rw (there, opens) refl))
  opens-May k (some d) db there sound h = elim (Bool-cases (eqb d.user_id v.user_id)) [
    | inl own ↦
        inr
          (found-Owned v.user_id k d db.devices (subst Distinct (column-id_of db.devices) sound.ids)
            there own).1
    | inr other ↦ inl (sym (rw (there, opens) (rw other refl)) ∙ h)
  ]

  Guarded-Effect :
      (page : Page) {db db' : Database}
      → Effect v db db'
      → Guarded settings n h v page db.devices
      → Guarded settings n h v page db'.devices
  Guarded-Effect elsewhere e guarded = tt
  Guarded-Effect own_devices e guarded = tt
  Guarded-Effect all_devices e guarded = guarded
  Guarded-Effect (one_device k) e guarded = Effect-May k e guarded

  act-Guarded :
      (a : Action) (page : Page) (s : State settings n h)
      → Guarded settings n h v page s.0.devices
      → IsSound s.0.devices
      → IsFresh settings n h v a s.0.devices
      → Guarded settings n h v
          (act settings n h v a (page, s)).0
          (act settings n h v a (page, s)).1.0.devices
  unfolding act
  act-Guarded visit_own page s guarded sound fresh = tt
  act-Guarded visit_all page s guarded sound fresh = elim (Bool-cases (has_admin_role v)) [
    | inl admin ↦ rw admin admin
    | inr plain ↦ rw plain tt
  ]
  act-Guarded (visit_one k) page s guarded sound fresh =
      elim (Bool-cases (opens settings n h v k s.0)) [
        | inl open_page ↦ rw open_page (opens-May k _ s.0 refl sound open_page)
        | inr shut ↦ rw shut tt
      ]
  act-Guarded (create owner form d key) page s guarded sound fresh =
      Guarded-Effect page
        (act-Effect settings n h v (create owner form d key) page s guarded sound fresh) guarded
  act-Guarded (delete k) page s guarded sound fresh =
      Guarded-Effect page (act-Effect settings n h v (delete k) page s guarded sound fresh) guarded
  act-Guarded (save k form) page s guarded sound fresh =
      Guarded-Effect page (act-Effect settings n h v (save k form) page s guarded sound fresh)
        guarded

  -- Each draw of a run is fresh when it is made.
  abbrev pub AllFresh : List Action → Visit settings n h v → Type 0
  AllFresh [] visit = Unit
  AllFresh (a ∷ as') visit =
      IsFresh settings n h v a visit.1.0.devices × AllFresh as' (act settings n h v a visit)

  -- While what is drawn for new devices is fresh and no id or address is there twice, no run of a
  -- visitor, from a page that was rightly opened, gives one twice, whatever the forms hold and
  -- whichever handlers fail.
  pub act_all-IsSound :
      (as' : List Action) (page : Page) (s : State settings n h)
      → Guarded settings n h v page s.0.devices
      → IsSound s.0.devices
      → AllFresh as' (page, s)
      → IsSound (act_all settings n h v as' (page, s)).1.0.devices
  unfolding act_all
  act_all-IsSound [] page s guarded sound fresh = sound
  act_all-IsSound (a ∷ as') page s guarded sound (fresh, later) =
      act_all-IsSound as' (act settings n h v a (page, s)).0 (act settings n h v a (page, s)).1
        (act-Guarded a page s guarded sound fresh)
        (Effect-IsSound (act-Effect settings n h v a page s guarded sound fresh) sound) later

  then-IsConfined :
      {db db' db'' : Database} → IsConfined v db db' → IsConfined v db' db'' → IsConfined v db db''
  then-IsConfined {db} {db'} {db''} first second = record {
    others_kept = second.others_kept ∙ first.others_kept;
    tables_kept =
        second.tables_kept
        ∙ ap (λ (w : Database). record w { devices = db''.devices }) first.tables_kept;
  }

  -- On the same conditions, a run of a visitor without the administrator's role leaves the devices
  -- of others and all other tables as they are.
  pub act_all-IsConfined :
      (as' : List Action) (page : Page) (s : State settings n h)
      → has_admin_role v ≡ false
      → Guarded settings n h v page s.0.devices
      → IsSound s.0.devices
      → AllFresh as' (page, s)
      → IsConfined v s.0 (act_all settings n h v as' (page, s)).1.0
  unfolding act_all
  act_all-IsConfined [] page s plain guarded sound fresh = record {
    others_kept = refl;
    tables_kept = refl;
  }
  act_all-IsConfined (a ∷ as') page s plain guarded sound (fresh, later) =
      let effect = act-Effect settings n h v a page s guarded sound fresh in
      then-IsConfined (Effect-IsConfined plain effect) (
        act_all-IsConfined as' (act settings n h v a (page, s)).0 (act settings n h v a (page, s)).1
          plain (act-Guarded a page s guarded sound fresh) (Effect-IsSound effect sound) later)
