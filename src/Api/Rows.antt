-- ===== src/Api/Rows.antt =====
-- The rows of the devices of one user, and of the others.
use wiregui.Base.{
  ◌≡◌, refl, sym, ap, ◌∙◌, subst, true, false, not, some, List, [], ◌∷◌, Text, map, has, eqb,
  eqb-eq, All, filter, if◌then◌else◌, arith, Bool-cases, inl, inr, none-ne-some, some-eq,
  true-ne-false,
}
use wiregui.Base.Distinct.{Distinct}
use wiregui.Models.{Device}
use wiregui.Database.{find, put_row, delete_row}

-- The devices that are not the user's.
abbrev pub foreign : Text → List Device → List Device
foreign u ds = filter (λ d. not (eqb d.user_id u)) ds

abbrev pub ids_of : List Device → List Text
ids_of ds = map (λ (d : Device). d.id) ds

-- Every row of the id belongs to the user.
abbrev pub Owned : Text → Text → List Device → Type 0
Owned u k ds = All (λ e. eqb e.id k ≡ true → eqb e.user_id u ≡ true) ds

pub Owned-absent : (u k : Text) (ds : List Device) → has k (ids_of ds) ≡ false → Owned u k ds
Owned-absent u k [] h = tt
Owned-absent u k (d ∷ ds) h =
    (λ same. absurd (true-ne-false (sym (rw same refl) ∙ h)), Owned-absent u k ds (ground arith))

-- Where the ids are distinct, the row that is found is the only one of its id.
pub found-Owned :
    (u k : Text) (d : Device) (ds : List Device)
    → Distinct (ids_of ds)
    → find (λ e. e.id) k ds ≡ some d
    → eqb d.user_id u ≡ true
    → (d.id ≡ k) × Owned u k ds
unfolding find
found-Owned u k d [] once found own = absurd (none-ne-some found)
found-Owned u k d (e ∷ es) once found own = elim (Bool-cases (eqb e.id k)) [
  | inl same ↦
      (let is =
          some-eq (ap (λ b. if b then some e else find (λ w. w.id) k es) (sym same) ∙ found) in
        (
          ap (λ (w : Device). w.id) (sym is) ∙ eqb-eq e.id k same,
          (
            λ _. ap (λ (w : Device). eqb w.user_id u) is ∙ own,
            Owned-absent u k es
                (subst (λ t. has t (ids_of es) ≡ false) (eqb-eq e.id k same) once.0),
          ),
        ))
  | inr other ↦
      (let (at_id, rest) =
          found-Owned u k d es once.1
            (ap (λ b. if b then some e else find (λ w. w.id) k es) (sym other) ∙ found) own in
        (at_id, ((λ same. absurd (true-ne-false (sym same ∙ other))), rest)))
]

-- Writing over, or deleting, a row of the user leaves the devices of the others alone.
pub foreign-put_row :
    (u : Text) (a : Device) (ds : List Device)
    → Owned u a.id ds
    → eqb a.user_id u ≡ true
    → foreign u (put_row (λ e. e.id) a ds) ≡ foreign u ds
unfolding put_row
foreign-put_row u a [] owned own = refl
foreign-put_row u a (e ∷ es) owned own = elim (Bool-cases (eqb e.id a.id)) [
  | inl same ↦ rw (same, own, owned.0 same) (foreign-put_row u a es owned.1 own)
  | inr other ↦ rw other (
      ap (λ rest. if not (eqb e.user_id u) then e ∷ rest else rest)
        (foreign-put_row u a es owned.1 own))
]

pub foreign-delete_row :
    (u k : Text) (ds : List Device)
    → Owned u k ds
    → foreign u (delete_row (λ e. e.id) k ds) ≡ foreign u ds
unfolding delete_row
foreign-delete_row u k [] owned = refl
foreign-delete_row u k (e ∷ es) owned = elim (Bool-cases (eqb e.id k)) [
  | inl same ↦ rw (same, owned.0 same) (foreign-delete_row u k es owned.1)
  | inr other ↦ rw other (
      ap (λ rest. if not (eqb e.user_id u) then e ∷ rest else rest)
        (foreign-delete_row u k es owned.1))
]
