-- ===== src/Auth/Seeded.antt =====
-- What a file of providers leaves: its own providers over those that were there.
use wiregui.Base.{
  ◌≡◌, refl, sym, ap, ◌∙◌, Bool, true, false, Option, none, some, List, [], ◌∷◌, Text, eqb, eqb-eq,
  subst, truthy, text_or_empty, if◌then◌else◌, arith, Bool-cases, inl, inr, true-ne-false,
}
use wiregui.Models.{Provider}
use wiregui.Auth.Providers.{has_id, find_provider}
use wiregui.Auth.Seed.{put_provider, upsert_one, upsert_incoming}

abbrev pub or_last : Option Provider → Bool → Provider → Option Provider
or_last (some r) here q = some r
or_last none here q = if here then some q else none

-- The last provider of a list that has an id.
abbrev pub last_provider : Text → List Provider → Option Provider
last_provider k [] = none
last_provider k (q ∷ qs) = or_last (last_provider k qs) (has_id k q.id) q

abbrev pub or_before : Option Provider → Option Provider → Option Provider
or_before (some r) before = some r
or_before none before = before

pub has_id-eq : (k : Text) (id : Option Text) → has_id k id ≡ true → id ≡ some k
has_id-eq k none h = absurd (true-ne-false (sym h))
has_id-eq k (some id) h = ap some (eqb-eq id k h)

find_provider-put :
    (k id : Text) (q : Provider) (found : List Provider)
    → q.id ≡ some id
    → find_provider k (put_provider id q found)
      ≡ (if eqb id k then some q else find_provider k found)
unfolding find_provider
find_provider-put k id q [] named = rw named refl
find_provider-put k id q (r ∷ rs) named = elim (Bool-cases (has_id id r.id)) [
  | inl same ↦ rw (same, named) (rw (has_id-eq id r.id same) (ground arith))
  | inr other ↦ rw other (
      ap (λ o. if has_id k r.id then some r else o) (find_provider-put k id q rs named)
      ∙ swap k id r.id other)
]
  where
    swap :
        (j i : Text) (o : Option Text)
        → has_id i o ≡ false
        → (if has_id j o then some r else if eqb i j then some q else find_provider j rs)
          ≡ (if eqb i j then some q else if has_id j o then some r else find_provider j rs)
    swap j i o h = elim (Bool-cases (eqb i j)) [
      | inl same ↦ rw (same, subst (λ t. has_id t o ≡ false) (eqb-eq i j same) h) refl
      | inr other ↦ rw other refl
    ]

find_provider-upsert_one :
    (k : Text) (q : Provider) (found : List Provider) (o : Option Text)
    → q.id ≡ o
    → truthy (some k) ≡ true
    → find_provider k (if truthy o then put_provider (text_or_empty o) q found else found)
      ≡ (if has_id k o then some q else find_provider k found)
find_provider-upsert_one k q found none is named = refl
find_provider-upsert_one [] q found (some []) is named = absurd (true-ne-false (sym named))
find_provider-upsert_one (c ∷ k) q found (some []) is named = refl
find_provider-upsert_one k q found (some (c ∷ t)) is named = find_provider-put k (c ∷ t) q found is

-- The last of two finds, in either order of looking.
last_of :
    (o : Option Provider) (c : Bool) (q : Provider) (f : Option Provider)
    → or_before o (if c then some q else f) ≡ or_before (or_last o c q) f
last_of (some r) c q f = refl
last_of none true q f = refl
last_of none false q f = refl

-- For an id that is not empty, a provider of the file is found in the end if it is the last of its id there, and one that the
-- file does not name is as before.
pub find_provider-upsert_incoming :
    (k : Text) (found incoming : List Provider)
    → truthy (some k) ≡ true
    → find_provider k (upsert_incoming found incoming)
      ≡ or_before (last_provider k incoming) (find_provider k found)
unfolding upsert_incoming
find_provider-upsert_incoming k found [] named = refl
find_provider-upsert_incoming k found (q ∷ qs) named =
    find_provider-upsert_incoming k (upsert_one q found) qs named
    ∙ ap (or_before (last_provider k qs)) (find_provider-upsert_one k q found q.id refl named)
    ∙ last_of (last_provider k qs) (has_id k q.id) q (find_provider k found)
