-- ===== src/Database/Lookup.antt =====
-- What is found in a table after a row was written over or deleted.
use wiregui.Base.{
  ◌≡◌, refl, sym, ap, ◌∙◌, subst, Bool, true, false, not, Option, none, some, List, [], ◌∷◌, Text,
  eqb, eqb-eq, eqb_refl, has, map, filter, if◌then◌else◌, arith, Bool-cases, inl, inr,
  true-ne-false, none-ne-some, some-eq,
}
use wiregui.Base.Distinct.{Distinct}
use wiregui.Database.{find, put_row, delete_row}

abbrev pub over {ℓ} : {A : Type ℓ} → A → Option A → Option A
over a none = none
over a (some b) = some a

-- Looking up after a row was written over.
pub find-put_row {ℓ} :
    {A : Type ℓ} (key : A → Text) (k : Text) (a : A) (rs : List A)
    → find key k (put_row key a rs)
      ≡ (if eqb (key a) k then over a (find key k rs) else find key k rs)
unfolding find put_row
find-put_row key k a [] = ground arith
find-put_row key k a (r ∷ rs) = elim (Bool-cases (eqb (key r) (key a))) [
  | inl same ↦ rw same (
      rw (eqb-eq (key r) (key a) same)
        (ap (λ o. if eqb (key a) k then some a else o) (find-put_row key k a rs) ∙ ground arith))
  | inr other ↦ rw other (
      ap (λ o. if eqb (key r) k then some r else o) (find-put_row key k a rs)
      ∙ apart (eqb (key r) k) refl other)
]
  where
    apart :
        (b : Bool)
        → eqb (key r) k ≡ b
        → eqb (key r) (key a) ≡ false
        → (if b then some r else if eqb (key a) k then over a (find key k rs) else find key k rs)
          ≡ (if eqb (key a) k
              then over a (if b then some r else find key k rs)
              else if b
              then some r
              else find key k rs)
    apart false h other = refl
    apart true h other = elim (Bool-cases (eqb (key a) k)) [
      | inl same ↦ absurd (
          true-ne-false (
            sym (eqb_refl k)
            ∙ ap (λ t. eqb t k) (sym (eqb-eq (key r) k h))
            ∙ ap (eqb (key r)) (sym (eqb-eq (key a) k same))
            ∙ other))
      | inr different ↦ rw different refl
    ]

pub find-key {ℓ} :
    {A : Type ℓ} (key : A → Text) (k : Text) (rs : List A) (a : A)
    → find key k rs ≡ some a
    → key a ≡ k
unfolding find
find-key key k [] a h = absurd (none-ne-some h)
find-key key k (r ∷ rs) a h = elim (Bool-cases (eqb (key r) k)) [
  | inl here ↦
      ap key (sym (some-eq (ap (λ b. if b then some r else find key k rs) (sym here) ∙ h)))
      ∙ eqb-eq (key r) k here
  | inr there ↦ find-key key k rs a (ap (λ b. if b then some r else find key k rs) (sym there) ∙ h)
]

pub find-missing {ℓ} :
    {A : Type ℓ} (key : A → Text) (k : Text) (rs : List A)
    → has k (map key rs) ≡ false
    → find key k rs ≡ none
unfolding find
find-missing key k [] h = refl
find-missing key k (r ∷ rs) h = elim (Bool-cases (eqb (key r) k)) [
  | inl here ↦ absurd (true-ne-false (ground arith))
  | inr there ↦ rw there (find-missing key k rs (ground arith))
]

-- A row that two columns find is found by the other after it was written over by the first.
pub find-put_row_other {ℓ} :
    {A : Type ℓ} (key other : A → Text) (k j : Text) (u a : A) (rs : List A)
    → find key k rs ≡ some u
    → find other j rs ≡ some u
    → key a ≡ key u
    → other a ≡ other u
    → find other j (put_row key a rs) ≡ some a
unfolding find put_row
find-put_row_other key other k j u a [] first second same same' = absurd (none-ne-some first)
find-put_row_other key other k j u a (r ∷ rs) first second same same' =
    elim (Bool-cases (eqb (key r) k)) [
      | inl here ↦
          (let is = some-eq (ap (λ b. if b then some r else find key k rs) (sym here) ∙ first) in
            let at_k = ap (λ t. eqb (key r) t) (same ∙ ap key (sym is)) ∙ eqb_refl (key r) in
            let at_j =
              ap (λ t. eqb (other a) t) (sym (same' ∙ find-key other j (r ∷ rs) u second))
              ∙ eqb_refl (other a) in
            rw at_k (rw at_j refl))
      | inr there ↦
          (let apart = ap (λ t. eqb (key r) t) (same ∙ find-key key k (r ∷ rs) u first) ∙ there in
            elim (Bool-cases (eqb (other r) j)) [
              | inl found ↦ absurd (
                  true-ne-false (
                    sym (ap (λ t. eqb t k) (find-key key k (r ∷ rs) u first) ∙ eqb_refl k)
                    ∙ ap (λ w. eqb (key w) k)
                        (sym (
                          some-eq
                            (ap (λ b. if b then some r else find other j rs) (sym found) ∙ second)))
                    ∙ there))
              | inr not_found ↦ rw apart (
                  rw not_found (
                    find-put_row_other key other k j u a rs
                      (ap (λ b. if b then some r else find key k rs) (sym there) ∙ first)
                      (ap (λ b. if b then some r else find other j rs) (sym not_found) ∙ second)
                      same same'))
            ])
    ]

has-find {ℓ} :
    {A : Type ℓ} (id key : A → Text) (k : Text) (u : A) (rs : List A)
    → find key k rs ≡ some u
    → has (id u) (map id rs) ≡ true
unfolding find
has-find id key k u [] found = absurd (none-ne-some found)
has-find id key k u (r ∷ rs) found = elim (Bool-cases (eqb (key r) k)) [
  | inl here ↦
      (let is = some-eq (ap (λ b. if b then some r else find key k rs) (sym here) ∙ found) in
        rw (ap (λ w. eqb (id w) (id u)) is ∙ eqb_refl (id u)) refl)
  | inr there ↦
      (let rest =
          has-find id key k u rs
            (ap (λ b. if b then some r else find key k rs) (sym there) ∙ found) in
        ground arith)
]

pub find-delete_row {ℓ} :
    {A : Type ℓ} (id key : A → Text) (j k : Text) (t : A) (rs : List A)
    → find key k rs ≡ some t
    → eqb (id t) j ≡ false
    → find key k (delete_row id j rs) ≡ some t
unfolding find delete_row
find-delete_row id key j k t [] found other = absurd (none-ne-some found)
find-delete_row id key j k t (r ∷ rs) found other = elim (Bool-cases (eqb (key r) k)) [
  | inl here ↦
      (let is = some-eq (ap (λ b. if b then some r else find key k rs) (sym here) ∙ found) in
        rw (ap (λ w. eqb (id w) j) is ∙ other) (rw here (ap some is)))
  | inr there ↦
      (let rest =
          find-delete_row id key j k t rs
            (ap (λ b. if b then some r else find key k rs) (sym there) ∙ found) other in
        elim (Bool-cases (eqb (id r) j)) [
          | inl gone ↦ rw gone rest
          | inr kept ↦ rw kept (rw there rest)
        ])
]

-- With distinct ids, the row that another column finds under an id is the row of that id.
pub find-same {ℓ} :
    {A : Type ℓ} (id key : A → Text) (j k : Text) (t u : A) (rs : List A)
    → Distinct (map id rs)
    → find id j rs ≡ some t
    → find key k rs ≡ some u
    → eqb (id u) j ≡ true
    → u ≡ t
unfolding find
find-same id key j k t u [] once first second same = absurd (none-ne-some first)
find-same id key j k t u (r ∷ rs) once first second same = elim (Bool-cases (eqb (key r) k)) [
  | inl here ↦
      (let is = some-eq (ap (λ b. if b then some r else find key k rs) (sym here) ∙ second) in
        sym is
        ∙ some-eq (
            ap (λ b. if b then some r else find id j rs) (sym (ap (λ w. eqb (id w) j) is ∙ same))
            ∙ first))
  | inr there ↦
      (let later = ap (λ b. if b then some r else find key k rs) (sym there) ∙ second in
        elim (Bool-cases (eqb (id r) j)) [
          | inl at_j ↦ absurd (
              true-ne-false (
                sym (
                  ap (λ w. has w (map id rs)) (eqb-eq (id r) j at_j ∙ sym (eqb-eq (id u) j same))
                  ∙ has-find id key k u rs later)
                ∙ once.0))
          | inr not_at_j ↦
              find-same id key j k t u rs once.1
                (ap (λ b. if b then some r else find id j rs) (sym not_at_j) ∙ first) later same
        ])
]

has-map-filter {ℓ} :
    {A : Type ℓ} (key : A → Text) (p : A → Bool) (k : Text) (rs : List A)
    → has k (map key rs) ≡ false
    → has k (map key (filter p rs)) ≡ false
has-map-filter key p k [] h = refl
has-map-filter key p k (r ∷ rs) h =
    let rest = has-map-filter key p k rs (ground arith) in
    elim (Bool-cases (p r)) [ inl keep ↦ rw keep (ground arith) | inr drop ↦ rw drop rest ]

-- With distinct keys, the key of a row that was deleted by its id is not found any more.
pub find-deleted {ℓ} :
    {A : Type ℓ} (id key : A → Text) (j : Text) (t : A) (rs : List A)
    → Distinct (map key rs)
    → find id j rs ≡ some t
    → find key (key t) (delete_row id j rs) ≡ none
unfolding find delete_row
find-deleted id key j t [] once found = absurd (none-ne-some found)
find-deleted id key j t (r ∷ rs) once found = elim (Bool-cases (eqb (id r) j)) [
  | inl here ↦
      (let is = some-eq (ap (λ b. if b then some r else find id j rs) (sym here) ∙ found) in
        rw here (
          find-missing key (key t) (filter (λ w. not (eqb (id w) j)) rs) (
            has-map-filter key (λ w. not (eqb (id w) j)) (key t) rs
              (subst (λ w. has (key w) (map key rs) ≡ false) is once.0))))
  | inr there ↦
      (let later = ap (λ b. if b then some r else find id j rs) (sym there) ∙ found in
        let apart : eqb (key r) (key t) ≡ false = elim (Bool-cases (eqb (key r) (key t))) [
          | inl same ↦ absurd (
              true-ne-false (
                sym (
                  ap (λ k. has k (map key rs)) (eqb-eq (key r) (key t) same)
                  ∙ has-find key id j t rs later)
                ∙ once.0))
          | inr other ↦ other
        ] in
        rw there (rw apart (find-deleted id key j t rs once.1 later)))
]
