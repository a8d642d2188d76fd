-- ===== src/Net/V4.antt =====
-- IPv4: `IPv4Address(n)` as text, and addresses and netmasks from text.
use wiregui.Base.{
  ℕ, zero, suc, ◌+◌, ◌-◌, ◌*◌, ◌/◌, ◌%◌, ◌^◌, Bool, true, false, not, ◌&&◌, Option, none, some,
  List, [], ◌∷◌, ◌++◌, Text, codes, split, ◌==◌, leb, ltb, length, if◌then◌else◌,
}
use wiregui.Net.Digits.{is_digit, show_ℕ, read_ℕ}

-- `str(IPv4Address(n))`
unfoldable pub show_v4 : ℕ → Text
unfolding show_ℕ
show_v4 n =
    show_ℕ (n / 2 ^ 24)
    ++ (codes "."
        ++ (show_ℕ (n / 2 ^ 16 % 256)
            ++ (codes "." ++ (show_ℕ (n / 2 ^ 8 % 256) ++ (codes "." ++ show_ℕ (n % 256))))))

abbrev all_digits : Text → Bool
all_digits [] = true
all_digits (c ∷ t) = is_digit c && all_digits t

-- No more than three digits, no leading zero, at most 255.
unfoldable pub read_octet : Text → Option ℕ
unfolding read_ℕ
read_octet t =
    let leading_zero : Bool = elim t [ [] ↦ false | c ∷ r ↦ (c == b'0') && ltb 0 (length r) ] in
    if all_digits t && (leb (length t) 3 && not leading_zero)
    then elim (read_ℕ t) [ none ↦ none | some n ↦ if leb n 255 then some n else none ]
    else none

unfoldable pub octets : List Text → Option (List ℕ)
octets [] = some []
octets (t ∷ ts) =
    let rest = octets ts in
    elim (read_octet t) [
      | none ↦ none
      | some n ↦ elim rest [ none ↦ none | some ns ↦ some (n ∷ ns) ]
    ]

unfoldable pub of_octets : List ℕ → Option ℕ
of_octets (a ∷ b ∷ c ∷ d ∷ []) = some (a * 2 ^ 24 + b * 2 ^ 16 + c * 2 ^ 8 + d)
of_octets _ = none

unfoldable pub number_of : Option (List ℕ) → Option ℕ
unfolding of_octets
number_of none = none
number_of (some ns) = of_octets ns

-- `int(IPv4Address(t))`
unfoldable pub read_v4 : Text → Option ℕ
unfolding octets number_of read_octet
read_v4 t = number_of (octets (split b'.' t))

-- `/n`, on the prefix lengths that may be left to try.
prefix_of_mask : ℕ → ℕ → Option ℕ
prefix_of_mask mask zero = if mask == 0 then some 0 else none
prefix_of_mask mask (suc n) =
    let rest = prefix_of_mask mask n in
    if mask == 2 ^ 32 - 2 ^ (32 - suc n) then some (suc n) else rest

-- A prefix length, a netmask, or else a host mask.
unfoldable pub read_prefix_v4 : Text → Option ℕ
unfolding read_ℕ read_v4 prefix_of_mask
read_prefix_v4 t =
    if all_digits t
    then elim (read_ℕ t) [ none ↦ none | some n ↦ if leb n 32 then some n else none ]
    else elim (read_v4 t) [
      | none ↦ none
      | some m ↦ elim (prefix_of_mask m 32) [
        | some n ↦ some n
        | none ↦ prefix_of_mask (2 ^ 32 - 1 - m) 32
      ]
    ]
