-- ===== src/Net/Decimals.antt =====
-- A number is read back from its decimal text, and the text has digits only.
use wiregui.Base.{
  ℕ, zero, suc, ◌+◌, ◌/◌, ◌<◌, ◌≡◌, ◌≢◌, refl, ◌∙◌, false, some, [], ◌∷◌, Text, ltb, arith,
  contains, Bool-cases, inl, inr, if◌then◌else◌,
}
use wiregui.Net.Digits.{is_digit, show_base, show_ℕ, read_base, read_ℕ}

contains-show_base :
    (c fuel n : ℕ) (out : Text)
    → is_digit c ≡ false
    → contains c (show_base 10 fuel n out) ≡ contains c out
unfolding show_base
contains-show_base c zero n out h = refl
contains-show_base c (suc fuel) n out h = elim (Bool-cases (ltb n 10)) [
  | inl small ↦ rw small (ground arith)
  | inr big ↦ rw big (contains-show_base c fuel (n / 10) _ h ∙ ground arith)
]

pub contains-show_ℕ : (c n : ℕ) → is_digit c ≡ false → contains c (show_ℕ n) ≡ false
unfolding show_ℕ
contains-show_ℕ c n h = contains-show_base c (n + 1) n [] h

read_base-show_base :
    (fuel n : ℕ) (out : Text)
    → n < fuel
    → read_base 10 0 (show_base 10 fuel n out) ≡ read_base 10 n out
unfolding read_base show_base
read_base-show_base zero n out h = absurd (omega arith)
read_base-show_base (suc fuel) n out h = elim (Bool-cases (ltb n 10)) [
  | inl small ↦ rw small (ground arith)
  | inr big ↦ rw big (read_base-show_base fuel (n / 10) _ (ground arith) ∙ ground arith)
]

show_base_cons :
    (fuel n d : ℕ) (out : Text) → (c : ℕ) × (t : Text) × (show_base 10 fuel n (d ∷ out) ≡ c ∷ t)
unfolding show_base
show_base_cons zero n d out = (d, out, refl)
show_base_cons (suc fuel) n d out = elim (Bool-cases (ltb n 10)) [
  | inl small ↦ (if ltb n 10 then b'0' + n else 87 + n, d ∷ out, rw (small, show_base) refl)
  | inr big ↦ rw big (show_base_cons fuel (n / 10) _ (d ∷ out))
]

show_cons :
    (fuel n : ℕ) (out : Text) → 0 < fuel → (c : ℕ) × (t : Text) × (show_base 10 fuel n out ≡ c ∷ t)
unfolding show_base
show_cons zero n out h = absurd (omega arith)
show_cons (suc fuel) n out h = elim (Bool-cases (ltb n 10)) [
  | inl small ↦ (if ltb n 10 then b'0' + n else 87 + n, out, rw (small, show_base) refl)
  | inr big ↦ rw big (show_base_cons fuel (n / 10) _ out)
]

pub show_ℕ-ne-nil : (n : ℕ) → show_ℕ n ≢ []
unfolding show_ℕ
show_ℕ-ne-nil n h = let (c, t, e) = show_cons (n + 1) n [] (omega arith) in cc

read_ℕ-read_base : (t : Text) → t ≢ [] → read_ℕ t ≡ read_base 10 0 t
unfolding read_ℕ
read_ℕ-read_base [] ne = absurd (ne refl)
read_ℕ-read_base (c ∷ t) ne = refl

pub read_ℕ-show_ℕ : (n : ℕ) → read_ℕ (show_ℕ n) ≡ some n
unfolding show_ℕ read_base
read_ℕ-show_ℕ n =
    read_ℕ-read_base (show_ℕ n) (show_ℕ-ne-nil n) ∙ read_base-show_base (n + 1) n [] (omega arith)
