-- ===== src/DevicePages/Effects.antt =====
-- What a handler may do to the rows of the devices, and what that leaves of their invariants.
use wiregui.Base.{
  ◌≡◌, ◌⊎◌, refl, sym, ap, ◌∙◌, subst, false, true, not, Option, some, List, [], ◌∷◌, Text, has,
  eqb, eqb_refl, if◌then◌else◌, inl, inr, Bool-cases, none-ne-some, some-eq, true-ne-false,
}
use wiregui.Base.Distinct.{Distinct}
use wiregui.Models.{Device}
use wiregui.Database.{Database, find, put_row, delete_row}
use wiregui.Api.Rows.{foreign, ids_of, Owned, foreign-put_row, foreign-delete_row}
use wiregui.DevicePages.Handlers.{Visitor}
use wiregui.DevicePages.Visits.{has_admin_role}
use wiregui.DevicePages.Addresses.{column, column-Distinct, filter-column_Distinct, column-put_row}

abbrev pub id_of : Device → Option Text
id_of d = some d.id

-- No id and no address is given twice.
pub record IsSound (ds : List Device) : Type 0 where
  pub ids : Distinct (column id_of ds)
  pub ipv4s : Distinct (column (λ d. d.ipv4) ds)
  pub ipv6s : Distinct (column (λ d. d.ipv6) ds)

pub column-id_of : (ds : List Device) → column id_of ds ≡ ids_of ds
column-id_of [] = refl
column-id_of (d ∷ ds) = ap (λ l. d.id ∷ l) (column-id_of ds)

-- The entry of a row in a column is there and is none of those that are there.
abbrev pub IsNew : (Device → Option Text) → Device → List Device → Type 0
IsNew field r ds = (a : Text) × (field r ≡ some a) × (has a (column field ds) ≡ false)

abbrev pub May : Visitor → Text → List Device → Type 0
May v k ds = (has_admin_role v ≡ true) ⊎ Owned v.user_id k ds

pub data Effect (v : Visitor) (db db' : Database) : Type 0 where
  kept : db' ≡ db → Effect v db db'
  added :
      (r : Device)
      → db' ≡ record db { devices = r ∷ db.devices }
      → IsNew id_of r db.devices
      → IsNew (λ d. d.ipv4) r db.devices
      → IsNew (λ d. d.ipv6) r db.devices
      → (has_admin_role v ≡ true) ⊎ (r.user_id ≡ v.user_id)
      → Effect v db db'
  replaced :
      (d r : Device)
      → db' ≡ record db { devices = put_row (λ e. e.id) r db.devices }
      → find (λ e. e.id) r.id db.devices ≡ some d
      → (d.id ≡ r.id) × (r.ipv4 ≡ d.ipv4) × (r.ipv6 ≡ d.ipv6) × (r.user_id ≡ d.user_id)
      → May v r.id db.devices
      → Effect v db db'
  removed :
      (k : Text)
      → db' ≡ record db { devices = delete_row (λ e. e.id) k db.devices }
      → May v k db.devices
      → Effect v db db'

new-Distinct :
    (field : Device → Option Text) (r : Device) (ds : List Device)
    → IsNew field r ds
    → Distinct (column field ds)
    → Distinct (column field (r ∷ ds))
new-Distinct field r ds (a, there, new) once = column-Distinct field r ds a there new once

pub Effect-IsSound :
    {v : Visitor} {db db' : Database} → Effect v db db' → IsSound db.devices → IsSound db'.devices
unfolding delete_row
Effect-IsSound (kept same) s = rw same s
Effect-IsSound {db} (added r same id v4 v6 may) s = rw same (record {
  ids = new-Distinct id_of r db.devices id s.ids;
  ipv4s = new-Distinct (λ d. d.ipv4) r db.devices v4 s.ipv4s;
  ipv6s = new-Distinct (λ d. d.ipv6) r db.devices v6 s.ipv6s;
})
Effect-IsSound {db} (replaced d r same found (at_id, v4, v6, owner) may) s =
    let once = subst Distinct (column-id_of db.devices) s.ids in
    rw same (record {
      ids =
          subst Distinct
            (sym (column-put_row id_of r.id d r db.devices once found refl (ap some (sym at_id))))
            s.ids;
      ipv4s =
          subst Distinct (sym (column-put_row (λ e. e.ipv4) r.id d r db.devices once found refl v4))
            s.ipv4s;
      ipv6s =
          subst Distinct (sym (column-put_row (λ e. e.ipv6) r.id d r db.devices once found refl v6))
            s.ipv6s;
    })
Effect-IsSound {db} (removed k same may) s = rw same (record {
  ids = filter-column_Distinct id_of (λ r. not (eqb r.id k)) db.devices s.ids;
  ipv4s = filter-column_Distinct (λ d. d.ipv4) (λ r. not (eqb r.id k)) db.devices s.ipv4s;
  ipv6s = filter-column_Distinct (λ d. d.ipv6) (λ r. not (eqb r.id k)) db.devices s.ipv6s;
})

pub found_owner :
    (u k : Text) (d : Device) (ds : List Device)
    → find (λ e. e.id) k ds ≡ some d
    → Owned u k ds
    → eqb d.user_id u ≡ true
unfolding find
found_owner u k d [] found owned = absurd (none-ne-some found)
found_owner u k d (e ∷ es) found owned = elim (Bool-cases (eqb e.id k)) [
  | inl same ↦
      ap (λ (w : Device). eqb w.user_id u)
        (sym (some-eq (ap (λ b. if b then some e else find (λ w. w.id) k es) (sym same) ∙ found)))
      ∙ owned.0 same
  | inr other ↦
      found_owner u k d es
        (ap (λ b. if b then some e else find (λ w. w.id) k es) (sym other) ∙ found) owned.1
]

-- What a visitor that is no administrator leaves alone.
pub record IsConfined (v : Visitor) (db db' : Database) : Type 0 where
  pub others_kept : foreign v.user_id db'.devices ≡ foreign v.user_id db.devices
  pub tables_kept : db' ≡ record db { devices = db'.devices }

pub Effect-IsConfined :
    {v : Visitor} {db db' : Database}
    → has_admin_role v ≡ false
    → Effect v db db'
    → IsConfined v db db'
Effect-IsConfined plain (kept same) = rw same (record { others_kept = refl; tables_kept = refl })
Effect-IsConfined plain (added r same id v4 v6 (inl admin)) =
    absurd (true-ne-false (sym admin ∙ plain))
Effect-IsConfined {v} plain (added r same id v4 v6 (inr own)) =
    rw same (record { others_kept = rw (own, eqb_refl v.user_id) refl; tables_kept = refl })
Effect-IsConfined plain (replaced d r same found fields (inl admin)) =
    absurd (true-ne-false (sym admin ∙ plain))
Effect-IsConfined {v} {db} plain (replaced d r same found (at_id, v4, v6, owner) (inr owned)) =
    rw same (record {
      others_kept =
          foreign-put_row v.user_id r db.devices owned
            (ap (λ t. eqb t v.user_id) owner ∙ found_owner v.user_id r.id d db.devices found owned);
      tables_kept = refl;
    })
Effect-IsConfined plain (removed k same (inl admin)) = absurd (true-ne-false (sym admin ∙ plain))
Effect-IsConfined {v} {db} plain (removed k same (inr owned)) =
    rw same
      (record { others_kept = foreign-delete_row v.user_id k db.devices owned; tables_kept = refl })
