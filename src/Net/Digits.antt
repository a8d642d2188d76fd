-- ===== src/Net/Digits.antt =====
-- Numbers in decimal and hexadecimal text: `int(t)`, `int(t, 16)`, `str(n)` and `"%x" % n`.
use wiregui.Base.{
  ℕ, zero, suc, ◌+◌, ◌-◌, ◌*◌, ◌/◌, ◌%◌, Bool, ◌&&◌, Option, none, some, [], ◌∷◌, Text, leb, ltb,
  if◌then◌else◌,
}

abbrev pub is_digit : ℕ → Bool
is_digit c = leb b'0' c && leb c b'9'

abbrev pub digit_value : ℕ → Option ℕ
digit_value c =
    if is_digit c
    then some (c - b'0')
    else if leb b'a' c && leb c b'f'
    then some (c - 87)
    else if leb b'A' c && leb c b'F'
    then some (c - 55)
    else none

-- The digits of a number in a base, most significant first, on fuel for the number of digits.
abbrev digit_text : ℕ → ℕ
digit_text d = if ltb d 10 then b'0' + d else 87 + d

unfoldable pub show_base : ℕ → ℕ → ℕ → Text → Text
show_base base zero n acc = acc
show_base base (suc fuel) n acc =
    let more = show_base base fuel (n / base) (digit_text (n % base) ∷ acc) in
    if ltb n base then digit_text n ∷ acc else more

-- `str(n)`: a number has at most as many digits as itself and one.
unfoldable pub show_ℕ : ℕ → Text
unfolding show_base
show_ℕ n = show_base 10 (n + 1) n []

-- `"%x" % n`
unfoldable pub show_hex : ℕ → Text
unfolding show_base
show_hex n = show_base 16 (n + 1) n []

unfoldable pub read_base : ℕ → ℕ → Text → Option ℕ
read_base base acc [] = some acc
read_base base acc (c ∷ t) = elim (digit_value c) [
  | none ↦ none
  | some d ↦ if ltb d base then read_base base (acc * base + d) t else none
]

-- `int(t)` of a text of digits; `none` is the `ValueError`.
unfoldable pub read_ℕ : Text → Option ℕ
unfolding read_base
read_ℕ [] = none
read_ℕ (c ∷ t) = read_base 10 0 (c ∷ t)
