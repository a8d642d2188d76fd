-- ===== src/Base/SortedText.antt =====
-- `sorted` of a set of texts.
use mathlib.Core.Path.{◌≡◌, refl, ◌∙◌}
use mathlib.Core.Bool.{Bool, true, false, ◌&&◌, ◌||◌}
use mathlib.Core.List.{List, [], ◌∷◌}
use mathlib.Core.Logic.{inl, inr}
use native.Mathlib.Omega.{arith}
use wiregui.Base.Tests.{◌==◌, ltb, if◌then◌else◌, Bool-cases}
use wiregui.Base.Strings.{Text, has, eqb, eqb-eq, eqb_sym}
use wiregui.Base.Distinct.{Distinct}

-- The order of texts, by code points.
unfoldable pub leb_text : Text → Text → Bool
leb_text [] t = true
leb_text (a ∷ s) [] = false
leb_text (a ∷ s) (b ∷ t) = ltb a b || ((a == b) && leb_text s t)

unfoldable pub insert_text : Text → List Text → List Text
unfolding leb_text
insert_text k [] = k ∷ []
insert_text k (x ∷ xs) =
    let rest = insert_text k xs in if leb_text k x then k ∷ (x ∷ xs) else x ∷ rest

unfoldable pub sort_texts : List Text → List Text
unfolding insert_text
sort_texts [] = []
sort_texts (x ∷ xs) = insert_text x (sort_texts xs)

pub has-insert_text :
    (j k : Text) (xs : List Text) → has j (insert_text k xs) ≡ (eqb k j || has j xs)
unfolding insert_text
has-insert_text j k [] = refl
has-insert_text j k (x ∷ xs) = elim (Bool-cases (leb_text k x)) [
  | inl le ↦ rw le
  | inr gt ↦ rw gt (ground (arith, has-insert_text j k xs))
]

pub has-sort_texts : (j : Text) (xs : List Text) → has j (sort_texts xs) ≡ has j xs
unfolding sort_texts
has-sort_texts j [] = refl
has-sort_texts j (x ∷ xs) =
    has-insert_text j x (sort_texts xs) ∙ ground (arith, has-sort_texts j xs)

insert_text-Distinct :
    (k : Text) (xs : List Text) → has k xs ≡ false → Distinct xs → Distinct (insert_text k xs)
unfolding insert_text
insert_text-Distinct k [] new h = (refl, tt)
insert_text-Distinct k (x ∷ xs) new h = elim (Bool-cases (leb_text k x)) [
  | inl le ↦ rw le (new, h)
  | inr gt ↦ rw gt (
    has-insert_text x k xs ∙ ground (arith, eqb-eq k x, eqb_sym x k),
    insert_text-Distinct k xs (ground arith) h.1,
  )
]

pub sort_texts-Distinct : (xs : List Text) → Distinct xs → Distinct (sort_texts xs)
unfolding sort_texts
sort_texts-Distinct [] h = tt
sort_texts-Distinct (x ∷ xs) h =
    insert_text-Distinct x (sort_texts xs) (has-sort_texts x xs ∙ h.0) (sort_texts-Distinct xs h.1)
