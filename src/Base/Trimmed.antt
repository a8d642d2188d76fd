-- ===== src/Base/Trimmed.antt =====
-- Splitting a text that was joined, and stripping one that has no white space at its ends.
use Prim.Native.Nat.{ℕ}
use mathlib.Core.Path.{◌≡◌, refl, sym, ap, ◌∙◌, subst}
use mathlib.Core.Bool.{false, ◌||◌}
use mathlib.Core.List.{List, [], ◌∷◌, ◌++◌, reverse, reverse-append, reverse-reverse}
use native.Mathlib.Omega.{arith}
use wiregui.Base.Tests.{◌==◌}
use wiregui.Base.Lists.{All, All-append}
use wiregui.Base.Strings.{Text, contains, split, join, strip, lstrip, is_space}

pub split_last : (c : ℕ) (a : Text) → contains c a ≡ false → split c a ≡ a ∷ []
split_last c [] h = refl
split_last c (x ∷ a) h = ground (arith, split_last c a)

pub split_first :
    (c : ℕ) (a t : Text) → contains c a ≡ false → split c (a ++ (c ∷ t)) ≡ a ∷ split c t
split_first c [] t h = ground arith
split_first c (x ∷ a) t h = ground (arith, split_first c a t)

pub contains-append : (c : ℕ) (a b : Text) → contains c (a ++ b) ≡ (contains c a || contains c b)
contains-append c [] b = refl
contains-append c (x ∷ a) b = ground (arith, contains-append c a b)

-- A text that was joined of pieces without the separator is split into them.
pub split-join :
    (c : ℕ) (x : Text) (xs : List Text)
    → All (λ y. contains c y ≡ false) (x ∷ xs)
    → split c (join (c ∷ []) (x ∷ xs)) ≡ x ∷ xs
split-join c x [] h = split_last c x h.0
split-join c x (y ∷ ys) h =
    split_first c x (join (c ∷ []) (y ∷ ys)) h.0 ∙ ap (λ l. x ∷ l) (split-join c y ys h.1)

pub contains-join :
    (d c : ℕ) (xs : List Text)
    → (c == d) ≡ false
    → All (λ y. contains d y ≡ false) xs
    → contains d (join (c ∷ []) xs) ≡ false
contains-join d c [] other h = refl
contains-join d c (x ∷ []) other h = h.0
contains-join d c (x ∷ y ∷ ys) other h =
    contains-append d x (c ∷ join (c ∷ []) (y ∷ ys))
    ∙ rw (h.0, other, contains-join d c (y ∷ ys) other h.1) refl

-- No character is white space.
abbrev pub IsSolid : Text → Type 0
IsSolid t = All (λ c. is_space c ≡ false) t

lstrip-IsSolid : (t : Text) → IsSolid t → lstrip t ≡ t
lstrip-IsSolid [] h = refl
lstrip-IsSolid (c ∷ t) h = rw h.0 refl

reverse-IsSolid : (t : Text) → IsSolid t → IsSolid (reverse t)
reverse-IsSolid [] h = tt
reverse-IsSolid (c ∷ t) h =
    subst IsSolid (sym (reverse-append (c ∷ []) t))
      (All-append (λ d. is_space d ≡ false) (reverse t) (c ∷ []) (reverse-IsSolid t h.1) (h.0, tt))

pub strip-IsSolid : (t : Text) → IsSolid t → strip t ≡ t
strip-IsSolid t h =
    ap (λ u. reverse (lstrip (reverse u))) (lstrip-IsSolid t h)
    ∙ ap reverse (lstrip-IsSolid (reverse t) (reverse-IsSolid t h))
    ∙ reverse-reverse t
