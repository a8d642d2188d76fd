-- ===== src/Base/Strings.antt =====
-- Python's `str` as the list of its code points, with the methods that the program calls.
use Prim.Native.Nat.{ℕ}
use Prim.Native.Char.{code}
use Prim.Native.String.{String}
use mathlib.Core.Path.{◌≡◌, refl, subst}
use mathlib.Core.Logic.{◌↔◌, inl, inr}
use mathlib.Core.Bool.{Bool, true, false, not, ◌&&◌, ◌||◌}
use mathlib.Core.Option.{Option, none, some}
use mathlib.Core.List.{List, [], ◌∷◌, ◌++◌, reverse}
use native.Mathlib.Omega.{arith}
use wiregui.Base.Tests.{◌==◌, leb, if◌then◌else◌, Bool-cases}
use wiregui.Base.Lists.{filter}

abbrev pub Text : Type 0
Text = List ℕ

-- A literal of the source.
abbrev pub codes : String → Text
codes String.[] = []
codes (String.◌∷◌ c s) = code c ∷ codes s

abbrev pub eqb : Text → Text → Bool
eqb [] [] = true
eqb [] (b ∷ bs) = false
eqb (a ∷ as') [] = false
eqb (a ∷ as') (b ∷ bs) = (a == b) && eqb as' bs

pub eqb_refl : (a : Text) → eqb a a ≡ true
eqb_refl [] = refl
eqb_refl (a ∷ as') = ground (arith, eqb_refl as')

pub eqb-eq : (a b : Text) → eqb a b ≡ true → a ≡ b
eqb-eq [] [] h = refl
eqb-eq [] (b ∷ bs) h = cc
eqb-eq (a ∷ as') [] h = cc
eqb-eq (a ∷ as') (b ∷ bs) h = ground (arith, eqb-eq as' bs)

pub eqb_iff : (a b : Text) → (eqb a b ≡ true) ↔ (a ≡ b)
eqb_iff a b = (eqb-eq a b, λ e. subst (λ t. eqb a t ≡ true) e (eqb_refl a))

pub eqb_sym : (a b : Text) → eqb a b ≡ eqb b a
eqb_sym [] [] = refl
eqb_sym [] (b ∷ bs) = refl
eqb_sym (a ∷ as') [] = refl
eqb_sym (a ∷ as') (b ∷ bs) = ground (arith, eqb_sym as' bs)

-- `k in xs` for a list or a set of texts.
abbrev pub has : Text → List Text → Bool
has k [] = false
has k (x ∷ xs) = eqb x k || has k xs

-- `prefix` is how the text begins.
abbrev pub starts_with : Text → Text → Bool
starts_with [] t = true
starts_with (p ∷ ps) [] = false
starts_with (p ∷ ps) (c ∷ t) = (p == c) && starts_with ps t

-- `part in t`
abbrev pub contains_text : Text → Text → Bool
contains_text part [] = starts_with part []
contains_text part (c ∷ t) = starts_with part (c ∷ t) || contains_text part t

-- `chr(c) in t`
abbrev pub contains : ℕ → Text → Bool
contains c [] = false
contains c (x ∷ t) = (x == c) || contains c t

-- `t.replace(chr(c), "")`
abbrev pub without : ℕ → Text → Text
without c t = filter (λ x. not (x == c)) t

-- `sep.join(parts)`
abbrev pub join : Text → List Text → Text
join sep [] = []
join sep (p ∷ []) = p
join sep (p ∷ q ∷ ps) = p ++ (sep ++ join sep (q ∷ ps))

abbrev pub is_space : ℕ → Bool
is_space c = (c == 32) || (leb 9 c && leb c 13)

abbrev pub lstrip : Text → Text
lstrip [] = []
lstrip (c ∷ t) = let rest = lstrip t in if is_space c then rest else c ∷ t

-- `t.strip()`
abbrev pub strip : Text → Text
strip t = reverse (lstrip (reverse (lstrip t)))

-- The first piece of a split and the rest of the pieces.
abbrev push : ℕ → List Text → List Text
push c [] = (c ∷ []) ∷ []
push c (p ∷ ps) = (c ∷ p) ∷ ps

-- `t.split(chr(sep))`
abbrev pub split : ℕ → Text → List Text
split sep [] = [] ∷ []
split sep (c ∷ t) = let rest = split sep t in if c == sep then [] ∷ rest else push c rest

-- `t.split()`: the runs of characters that are no white space.
abbrev pub words_from : Text → Text → List Text
words_from acc [] = elim acc [ [] ↦ [] | c ∷ r ↦ reverse (c ∷ r) ∷ [] ]
words_from acc (c ∷ t) =
    let skip = words_from [] t in
    let grow = words_from (c ∷ acc) t in
    if is_space c then (elim acc [ [] ↦ skip | d ∷ r ↦ reverse (d ∷ r) ∷ skip ]) else grow

abbrev pub words : Text → List Text
words t = words_from [] t

-- An optional text is true when it is there and not empty.
abbrev pub truthy : Option Text → Bool
truthy none = false
truthy (some []) = false
truthy (some (c ∷ t)) = true

abbrev pub text_or_empty : Option Text → Text
text_or_empty none = []
text_or_empty (some t) = t

pub has-append : (k : Text) (xs ys : List Text) → has k (xs ++ ys) ≡ (has k xs || has k ys)
has-append k [] ys = refl
has-append k (x ∷ xs) ys = ground (arith, has-append k xs ys)

pub has-filter :
    (k : Text) (p : Text → Bool) (xs : List Text) → has k (filter p xs) ≡ (has k xs && p k)
has-filter k p [] = refl
has-filter k p (x ∷ xs) = ground (arith, has-filter k p xs, eqb-eq x k)

-- A set of texts, as the list of its members.
abbrev pub add : Text → List Text → List Text
add k xs = if has k xs then xs else xs ++ (k ∷ [])

pub has-add : (j k : Text) (xs : List Text) → has j (add k xs) ≡ (eqb k j || has j xs)
has-add j k xs = elim (Bool-cases (has k xs)) [
  | inl old ↦ rw old (ground (arith, eqb-eq k j))
  | inr new ↦ rw new (ground (arith, has-append j xs (k ∷ [])))
]
