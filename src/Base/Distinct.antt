-- ===== src/Base/Distinct.antt =====
-- Lists of texts with no repetition: what the program keeps in a Python set.
use wiregui.Base.Tests.{Bool-cases, true-ne-false}
use wiregui.Base.Lists.{filter}
use wiregui.Base.Strings.{Text, eqb, eqb-eq, eqb_refl, has, has-filter, has-append, add}
use mathlib.Core.Path.{◌≡◌, refl, sym, ap, ◌∙◌}
use mathlib.Core.Bool.{Bool, true, false}
use mathlib.Core.Logic.{inl, inr}
use mathlib.Core.List.{List, [], ◌∷◌, ◌++◌}
use native.Mathlib.Omega.{arith}

abbrev pub Distinct : List Text → Type 0
Distinct [] = Unit
Distinct (x ∷ xs) = (has x xs ≡ false) × Distinct xs

pub filter-Distinct : (p : Text → Bool) (xs : List Text) → Distinct xs → Distinct (filter p xs)
filter-Distinct p [] h = tt
filter-Distinct p (x ∷ xs) h = elim (Bool-cases (p x)) [
  | inl keep ↦ rw keep (has-filter x p xs ∙ ground arith, filter-Distinct p xs h.1)
  | inr drop ↦ rw drop (filter-Distinct p xs h.1)
]

append-Distinct :
    (k : Text) (xs : List Text) → has k xs ≡ false → Distinct xs → Distinct (xs ++ (k ∷ []))
append-Distinct k [] new h = (refl, tt)
append-Distinct k (x ∷ xs) new h = (
  has-append x xs (k ∷ []) ∙ ground (arith, eqb-eq k x, eqb-eq x k, eqb_refl k),
  append-Distinct k xs (ground arith) h.1,
)

pub add-Distinct : (k : Text) (xs : List Text) → Distinct xs → Distinct (add k xs)
add-Distinct k xs h = elim (Bool-cases (has k xs)) [
  | inl old ↦ rw old h
  | inr new ↦ rw new (append-Distinct k xs new h)
]

pub has-ne : (k j : Text) (xs : List Text) → has k xs ≡ false → has j xs ≡ true → eqb k j ≡ false
has-ne k j xs new old = elim (Bool-cases (eqb k j)) [
  | inl same ↦ absurd (true-ne-false (sym old ∙ ap (λ x. has x xs) (sym (eqb-eq k j same)) ∙ new))
  | inr other ↦ other
]

pub has_first : (c : Text) (cs : List Text) → has c (c ∷ cs) ≡ true
has_first c cs = rw (eqb_refl c)

pub has_rest : (c : Text) (cs : List Text) (d : Text) → has d cs ≡ true → has d (c ∷ cs) ≡ true
has_rest c cs d h = ground arith
