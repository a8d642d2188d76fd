-- ===== src/DevicePages/Addresses.antt =====
-- The addresses and the ids of the devices after a row is added, written over or deleted.
use wiregui.Base.{
  ◌≡◌, refl, sym, ap, ◌∙◌, subst, Bool, false, ◌||◌, Option, none, some, List, [], ◌∷◌, Text, map,
  has, has-add, eqb, eqb-eq, filter, if◌then◌else◌, arith, Bool-cases, Option-cases, inl, inr,
  none-ne-some, some-eq, true-ne-false,
}
use wiregui.Base.Distinct.{Distinct}
use wiregui.Models.{Device}
use wiregui.Database.{find, put_row}
use wiregui.Allocation.{get_used_ips}

abbrev pub or_rest : Option Text → List Text → List Text
or_rest none rest = rest
or_rest (some a) rest = a ∷ rest

-- The texts of a column, with their repetitions.
abbrev pub column : (Device → Option Text) → List Device → List Text
column field [] = []
column field (d ∷ ds) = or_rest (field d) (column field ds)

abbrev pub is_entry : Text → Option Text → Bool
is_entry k none = false
is_entry k (some a) = eqb a k

has-or_rest :
    (k : Text) (o : Option Text) (rest : List Text)
    → has k (or_rest o rest) ≡ (is_entry k o || has k rest)
has-or_rest k none rest = refl
has-or_rest k (some a) rest = refl

Distinct-or_rest :
    (o : Option Text) (rest : List Text)
    → ((a : Text) → o ≡ some a → has a rest ≡ false)
    → Distinct rest
    → Distinct (or_rest o rest)
Distinct-or_rest none rest new once = once
Distinct-or_rest (some a) rest new once = (new a refl, once)

Distinct-or_rest_first :
    (o : Option Text) (rest : List Text) (a : Text)
    → Distinct (or_rest o rest)
    → o ≡ some a
    → has a rest ≡ false
Distinct-or_rest_first none rest a once there = absurd (none-ne-some there)
Distinct-or_rest_first (some b) rest a once there =
    subst (λ t. has t rest ≡ false) (some-eq there) once.0

Distinct-or_rest_rest :
    (o : Option Text) (rest : List Text) → Distinct (or_rest o rest) → Distinct rest
Distinct-or_rest_rest none rest once = once
Distinct-or_rest_rest (some a) rest once = once.1

pub has-get_used_ips :
    (field : Device → Option Text) (k : Text) (ds : List Device)
    → has k (get_used_ips field ds) ≡ has k (column field ds)
unfolding get_used_ips
has-get_used_ips field k [] = refl
has-get_used_ips field k (d ∷ ds) = elim (Option-cases (field d)) [
  | inl blank ↦ rw (blank, get_used_ips) (has-get_used_ips field k ds)
  | inr (a, there) ↦
      rw (there, get_used_ips)
        (has-add k a (get_used_ips field ds) ∙ ap (λ b. eqb a k || b) (has-get_used_ips field k ds))
]

-- A row whose entry is new keeps a column without repetition.
pub column-Distinct :
    (field : Device → Option Text) (d : Device) (ds : List Device) (a : Text)
    → field d ≡ some a
    → has a (column field ds) ≡ false
    → Distinct (column field ds)
    → Distinct (column field (d ∷ ds))
column-Distinct field d ds a there new once = rw there (new, once)

has-column-filter :
    (field : Device → Option Text) (p : Device → Bool) (k : Text) (ds : List Device)
    → has k (column field ds) ≡ false
    → has k (column field (filter p ds)) ≡ false
has-column-filter field p k [] h = refl
has-column-filter field p k (d ∷ ds) h =
    let parts : (is_entry k (field d) || has k (column field ds)) ≡ false =
      sym (has-or_rest k (field d) (column field ds)) ∙ h in
    let rest = has-column-filter field p k ds (ground arith) in
    elim (Bool-cases (p d)) [
      | inl keep ↦ rw keep (has-or_rest k (field d) (column field (filter p ds)) ∙ ground arith)
      | inr drop ↦ rw drop rest
    ]

pub filter-column_Distinct :
    (field : Device → Option Text) (p : Device → Bool) (ds : List Device)
    → Distinct (column field ds)
    → Distinct (column field (filter p ds))
filter-column_Distinct field p [] once = tt
filter-column_Distinct field p (d ∷ ds) once =
    let rest =
      filter-column_Distinct field p ds (Distinct-or_rest_rest (field d) (column field ds) once) in
    elim (Bool-cases (p d)) [
      | inl keep ↦ rw keep (
          Distinct-or_rest (field d) (column field (filter p ds))
            (λ a there.
              has-column-filter field p a ds
                (Distinct-or_rest_first (field d) (column field ds) a once there))
            rest)
      | inr drop ↦ rw drop rest
    ]

-- Writing over the one row of an id with a row of the same entry leaves a column as it is.
put_row-absent :
    (a : Device) (ds : List Device)
    → has a.id (map (λ (d : Device). d.id) ds) ≡ false
    → put_row (λ e. e.id) a ds ≡ ds
unfolding put_row
put_row-absent a [] h = refl
put_row-absent a (d ∷ ds) h = elim (Bool-cases (eqb d.id a.id)) [
  | inl same ↦ absurd (true-ne-false (sym (rw same refl) ∙ h))
  | inr other ↦ rw other (ap (λ es. d ∷ es) (put_row-absent a ds (ground arith)))
]

pub column-put_row :
    (field : Device → Option Text) (k : Text) (d a : Device) (ds : List Device)
    → Distinct (map (λ (e : Device). e.id) ds)
    → find (λ e. e.id) k ds ≡ some d
    → a.id ≡ k
    → field a ≡ field d
    → column field (put_row (λ e. e.id) a ds) ≡ column field ds
unfolding put_row find
column-put_row field k d a [] once found at_id same = refl
column-put_row field k d a (e ∷ es) once found at_id same =
    let tested : eqb e.id k ≡ eqb e.id a.id = ap (λ t. eqb e.id t) (sym at_id) in
    elim (Bool-cases (eqb e.id a.id)) [
      | inl here ↦
          (let is = some-eq (
              ap (λ b. if b then some e else find (λ w. w.id) k es) (sym (tested ∙ here))
              ∙ found) in
            rw here (
              ap (λ l. or_rest (field a) (column field l))
                (put_row-absent a es (
                  subst (λ t. has t (map (λ (w : Device). w.id) es) ≡ false) (eqb-eq e.id a.id here)
                    once.0))
              ∙ ap (λ o. or_rest o (column field es)) (same ∙ ap field (sym is))))
      | inr other ↦ rw other (
          ap (λ l. or_rest (field e) l)
            (column-put_row field k d a es once.1
              (ap (λ b. if b then some e else find (λ w. w.id) k es) (sym (tested ∙ other)) ∙ found)
              at_id same))
    ]
