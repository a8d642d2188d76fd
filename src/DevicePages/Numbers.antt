-- ===== src/DevicePages/Numbers.antt =====
-- A number is read back from the text that the form shows of it.
use wiregui.Base.{
  ℕ, zero, suc, ◌+◌, ◌/◌, ◌≤◌, ◌<◌, ◌≡◌, ◌≢◌, refl, ap, ◌∙◌, Bool, true, false, Option, none, some,
  [], ◌∷◌, Text, strip-IsSolid, IsSolid, ltb, arith, Bool-cases, inl, inr, All,
}
use wiregui.Base.Int.{ℤ, pos, negsuc}
use wiregui.Net.{show_ℕ, show_base}
use wiregui.Net.Decimals.{show_ℕ-ne-nil}
use wiregui.Client.{show_ℤ}
use wiregui.DevicePages.Form.{
  read_digits, plus_of, minus_of, read_signed, read_int, int_or_none, number_text,
}

IsDigit : ℕ → Type 0
IsDigit c = (b'0' ≤ c) × (c ≤ b'9')

show_base-IsDigit :
    (fuel n : ℕ) (out : Text) → All IsDigit out → All IsDigit (show_base 10 fuel n out)
unfolding show_base IsDigit
show_base-IsDigit zero n out h = h
show_base-IsDigit (suc fuel) n out h = elim (Bool-cases (ltb n 10)) [
  | inl small ↦ rw small (ground arith, h)
  | inr big ↦ rw big (show_base-IsDigit fuel (n / 10) _ (ground arith, h))
]

-- Reading the digits in front of a text is reading the text after the number.
read_digits-show_base :
    (fuel n : ℕ) (out : Text)
    → n < fuel
    → (ok : Bool) → read_digits 0 ok (show_base 10 fuel n out) ≡ read_digits n true out
unfolding read_digits show_base
read_digits-show_base zero n out h ok = absurd (omega arith)
read_digits-show_base (suc fuel) n out h ok = elim (Bool-cases (ltb n 10)) [
  | inl small ↦ rw small (ground arith)
  | inr big ↦ rw big (read_digits-show_base fuel (n / 10) _ (ground arith) ok ∙ ground arith)
]

show_ℕ-IsDigit : (n : ℕ) → All IsDigit (show_ℕ n)
unfolding show_ℕ
show_ℕ-IsDigit n = show_base-IsDigit (n + 1) n [] tt

read_digits-show_ℕ : (n : ℕ) → read_digits 0 false (show_ℕ n) ≡ some n
unfolding show_ℕ read_digits
read_digits-show_ℕ n = read_digits-show_base (n + 1) n [] (omega arith) false

IsDigit-IsSolid : (t : Text) → All IsDigit t → IsSolid t
unfolding IsDigit
IsDigit-IsSolid [] h = tt
IsDigit-IsSolid (c ∷ t) h = (ground arith, IsDigit-IsSolid t h.1)

read_signed-IsDigit :
    (t : Text) → t ≢ [] → All IsDigit t → read_signed t ≡ plus_of (read_digits 0 false t)
unfolding read_signed IsDigit
read_signed-IsDigit [] ne h = absurd (ne refl)
read_signed-IsDigit (c ∷ t) ne ((low, high), rest) = ground arith

show_ℤ-IsSolid : (z : ℤ) → IsSolid (show_ℤ z)
unfolding show_ℤ
show_ℤ-IsSolid (pos n) = IsDigit-IsSolid (show_ℕ n) (show_ℕ-IsDigit n)
show_ℤ-IsSolid (negsuc n) = (refl, IsDigit-IsSolid (show_ℕ (suc n)) (show_ℕ-IsDigit (suc n)))

-- `int(str(z))` is `z`.
pub read_int-show_ℤ : (z : ℤ) → read_int (show_ℤ z) ≡ some z
unfolding read_int show_ℤ
read_int-show_ℤ (pos n) =
    ap read_signed (strip-IsSolid (show_ℕ n) (show_ℤ-IsSolid (pos n)))
    ∙ read_signed-IsDigit (show_ℕ n) (show_ℕ-ne-nil n) (show_ℕ-IsDigit n)
    ∙ ap plus_of (read_digits-show_ℕ n)
read_int-show_ℤ (negsuc n) =
    ap read_signed (strip-IsSolid (b'-' ∷ show_ℕ (suc n)) (show_ℤ-IsSolid (negsuc n)))
    ∙ (unfold read_signed in ap minus_of (read_digits-show_ℕ (suc n)))

int_or_none-read : (t : Text) (z : ℤ) → t ≢ [] → read_int t ≡ some z → int_or_none t ≡ some (some z)
unfolding int_or_none
int_or_none-read [] z ne h = absurd (ne refl)
int_or_none-read (c ∷ t) z ne h = rw h refl

-- An optional number other than 0 is read back from its input.
pub int_or_none-number_text :
    (o : Option ℤ) → o ≢ some (pos 0) → int_or_none (number_text o) ≡ some o
unfolding number_text show_ℤ
int_or_none-number_text none h = unfold int_or_none in refl
int_or_none-number_text (some (pos zero)) h = absurd (h refl)
int_or_none-number_text (some (pos (suc n))) h =
    int_or_none-read (show_ℕ (suc n)) (pos (suc n)) (show_ℕ-ne-nil (suc n))
      (read_int-show_ℤ (pos (suc n)))
int_or_none-number_text (some (negsuc n)) h =
    int_or_none-read (b'-' ∷ show_ℕ (suc n)) (negsuc n) (cc) (read_int-show_ℤ (negsuc n))
