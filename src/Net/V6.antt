-- ===== src/Net/V6.antt =====
-- IPv6: `IPv6Address(n)` as text, and addresses from text.
use wiregui.Base.{
  ℕ, zero, suc, ◌+◌, ◌-◌, ◌*◌, ◌/◌, ◌%◌, ◌^◌, ◌&&◌, Option, none, some, List, [], ◌∷◌, ◌++◌, map,
  Text, codes, split, join, contains, ◌==◌, leb, ltb, length, take, drop, if◌then◌else◌,
}
use wiregui.Net.Digits.{show_hex, read_base}
use wiregui.Net.V4.{read_v4, show_v4}

-- The eight groups of an address.
groups : ℕ → List ℕ
groups n =
    n / 2 ^ 112
    ∷ (n / 2 ^ 96 % 65536
        ∷ (n / 2 ^ 80 % 65536
            ∷ (n / 2 ^ 64 % 65536
                ∷ (n / 2 ^ 48 % 65536
                    ∷ (n / 2 ^ 32 % 65536 ∷ (n / 2 ^ 16 % 65536 ∷ (n % 65536 ∷ [])))))))

zeros : List ℕ → ℕ
zeros [] = 0
zeros (g ∷ gs) = let rest = suc (zeros gs) in if g == 0 then rest else 0

-- The first of the longest runs of zero groups, as its start and length.
longest_run : ℕ → ℕ × ℕ → List ℕ → ℕ × ℕ
unfolding zeros
longest_run i best [] = best
longest_run i best (g ∷ gs) =
    longest_run (i + 1) (if ltb best.1 (zeros (g ∷ gs)) then (i, zeros (g ∷ gs)) else best) gs

abbrev hex_text : List ℕ → Text
hex_text gs = join (codes ":") (map show_hex gs)

compressed : List ℕ → Text
unfolding longest_run show_hex
compressed gs =
    let (start, run) = longest_run 0 (0, 0) gs in
    if ltb 1 run
    then hex_text (take start gs) ++ (codes "::" ++ hex_text (drop (start + run) gs))
    else hex_text gs

-- `str(IPv6Address(n))`; an IPv4-mapped address ends in its IPv4 text.
unfoldable pub show_v6 : ℕ → Text
unfolding groups compressed show_v4
show_v6 n =
    if n / 2 ^ 32 == 0xffff then codes "::ffff:" ++ show_v4 (n % 2 ^ 32) else compressed (groups n)

read_group : Text → Option ℕ
unfolding read_base
read_group [] = none
read_group (c ∷ t) = if leb (length t) 3 then read_base 16 0 (c ∷ t) else none

-- The groups of a part without `::`; an IPv4 address may stand last.
read_groups : List Text → Option (List ℕ)
unfolding read_group read_v4
read_groups [] = some []
read_groups (t ∷ ts) =
    let rest = read_groups ts in
    let last : Option (List ℕ) = elim (read_v4 t) [
      | none ↦ none
      | some n ↦ some (n / 65536 ∷ (n % 65536 ∷ []))
    ] in
    let plain : Option (List ℕ) = elim (read_group t) [
      | none ↦ none
      | some g ↦ elim rest [ none ↦ none | some gs ↦ some (g ∷ gs) ]
    ] in
    if contains b'.' t then (elim ts [ [] ↦ last | u ∷ us ↦ none ]) else plain

of_groups : ℕ → List ℕ → ℕ
of_groups acc [] = acc
of_groups acc (g ∷ gs) = of_groups (acc * 65536 + g) gs

zero_groups : ℕ → List ℕ
zero_groups zero = []
zero_groups (suc n) = 0 ∷ zero_groups n

-- The text before and after the first `::`.
double_colon : Text → Text → Option (Text × Text)
double_colon before [] = none
double_colon before (c ∷ []) = none
double_colon before (c ∷ d ∷ t) =
    let rest = double_colon (before ++ (c ∷ [])) (d ∷ t) in
    if (c == b':') && (d == b':') then some (before, t) else rest

part_groups : Text → Option (List ℕ)
unfolding read_groups
part_groups [] = some []
part_groups (c ∷ t) = read_groups (split b':' (c ∷ t))

-- The parts of `a::b`, or the eight groups of a full address.
abbrev fill : List ℕ → List ℕ → Option ℕ
fill xs ys =
    if ltb (length xs + length ys) 8
    then some (of_groups 0 (xs ++ (zero_groups (8 - length xs - length ys) ++ ys)))
    else none

-- `int(IPv6Address(t))` of a text without a scope.
unfoldable pub read_v6 : Text → Option ℕ
unfolding double_colon part_groups of_groups zero_groups read_groups
read_v6 t = elim (double_colon [] t) [
  | some (a, b) ↦ if contains b'.' a then none else elim (part_groups a) [
    | none ↦ none
    | some xs ↦ elim (part_groups b) [ none ↦ none | some ys ↦ fill xs ys ]
  ]
  | none ↦ elim (read_groups (split b':' t)) [
    | none ↦ none
    | some gs ↦ if length gs == 8 then some (of_groups 0 gs) else none
  ]
]
