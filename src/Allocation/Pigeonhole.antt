-- ===== src/Allocation/Pigeonhole.antt =====
-- A list that has all of `n` different texts has at least `n` entries.
use wiregui.Base.{
  ℕ, zero, suc, ◌+◌, ◌≤◌, ◌<◌, ◌≡◌, ◌∙◌, Bool, true, false, not, List, [], ◌∷◌, Text, has,
  has-filter, eqb, arith, filter, length,
}

length-filter-le : (p : Text → Bool) (xs : List Text) → length (filter p xs) ≤ length xs
length-filter-le p [] = omega arith
length-filter-le p (x ∷ xs) = ground (arith, length-filter-le p xs)

others : Text → List Text → List Text
others x = filter (λ y. not (eqb y x))

length-others-lt : (x : Text) (xs : List Text) → has x xs ≡ true → length (others x xs) < length xs
unfolding others
length-others-lt x [] h = cc
length-others-lt x (y ∷ xs) h =
    ground (arith, length-others-lt x xs, length-filter-le (λ z. not (eqb z x)) xs)

pub pigeonhole :
    (show : ℕ → Text) (lo n : ℕ) (used : List Text)
    → ((i j : ℕ) → lo ≤ i → i < j → j < lo + n → eqb (show j) (show i) ≡ false)
    → ((i : ℕ) → lo ≤ i → i < lo + n → has (show i) used ≡ true)
    → n ≤ length used
unfolding others
pigeonhole show lo zero used differ all = omega arith
pigeonhole show lo (suc n) used differ all = omega (
  arith,
  length-others-lt (show lo) used (all lo (omega arith) (omega arith)),
  pigeonhole show (lo + 1) n (others (show lo) used)
      (λ i j above lt below. differ i j (omega arith) lt (omega arith))
      (λ i above below.
        has-filter (show i) (λ y. not (eqb y (show lo))) used
        ∙ rw (
          all i (omega arith) (omega arith),
          differ lo i (omega arith) (omega arith) (omega arith),
        )),
)
