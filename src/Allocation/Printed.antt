-- ===== src/Allocation/Printed.antt =====
-- IPv4 addresses are printed so that they can be read back, and so differently.
use wiregui.Base.{
  some-eq, ℕ, zero, suc, ◌/◌, ◌%◌, ◌^◌, ◌<◌, ◌≡◌, refl, sym, ap, ◌∙◌, Bool, true, false, not, ◌&&◌,
  Option, none, some, List, [], ◌∷◌, Text, split, contains, eqb, eqb-eq, ◌==◌, ==_iff, arith,
  Bool-cases, inl, inr, split_last, split_first,
}
use wiregui.Net.{show_ℕ, show_v4, read_octet, octets, number_of, read_v4}

-- Over a small range, every value by evaluation.
all_below : ℕ → (ℕ → Bool) → Bool
all_below zero p = true
all_below (suc n) p = p n && all_below n p

all_below_lem : (n : ℕ) (p : ℕ → Bool) (x : ℕ) → all_below n p ≡ true → x < n → p x ≡ true
unfolding all_below
all_below_lem zero p x h lt = absurd (omega arith)
all_below_lem (suc n) p x h lt = ground (arith, all_below_lem n p x)

is_number : ℕ → Option ℕ → Bool
is_number n none = false
is_number n (some m) = m == n

octet_table :
    all_below 256 (λ n. is_number n (read_octet (show_ℕ n)) && not (contains b'.' (show_ℕ n)))
    ≡ true
unfolding all_below is_number read_octet show_ℕ
octet_table = refl

is_number_lem : (n : ℕ) (o : Option ℕ) → is_number n o ≡ true → o ≡ some n
unfolding is_number
is_number_lem n none h = cc
is_number_lem n (some m) h = ap some ((==_iff m n).0 h)

read_octet-show_ℕ : (n : ℕ) → n < 256 → read_octet (show_ℕ n) ≡ some n
read_octet-show_ℕ n h = is_number_lem n _ (ground (arith, all_below_lem 256 _ n octet_table h))

show_ℕ_no_dot : (n : ℕ) → n < 256 → contains b'.' (show_ℕ n) ≡ false
show_ℕ_no_dot n h = ground (arith, all_below_lem 256 _ n octet_table h)

split-show_v4 :
    (n : ℕ)
    → n < 2 ^ 32
    → split b'.' (show_v4 n)
      ≡ show_ℕ (n / 2 ^ 24)
        ∷ (show_ℕ (n / 2 ^ 16 % 256) ∷ (show_ℕ (n / 2 ^ 8 % 256) ∷ (show_ℕ (n % 256) ∷ [])))
unfolding show_v4
split-show_v4 n h =
    split_first b'.' (show_ℕ (n / 2 ^ 24)) _ (show_ℕ_no_dot (n / 2 ^ 24) (omega arith))
    ∙ ap (λ l. show_ℕ (n / 2 ^ 24) ∷ l)
        (split_first b'.' (show_ℕ (n / 2 ^ 16 % 256)) _
            (show_ℕ_no_dot (n / 2 ^ 16 % 256) (omega arith))
          ∙ ap (λ l. show_ℕ (n / 2 ^ 16 % 256) ∷ l)
              (split_first b'.' (show_ℕ (n / 2 ^ 8 % 256)) _
                  (show_ℕ_no_dot (n / 2 ^ 8 % 256) (omega arith))
                ∙ ap (λ l. show_ℕ (n / 2 ^ 8 % 256) ∷ l)
                    (split_last b'.' (show_ℕ (n % 256)) (show_ℕ_no_dot (n % 256) (omega arith)))))

octets-cons :
    (t : Text) (ts : List Text) (n : ℕ) (ns : List ℕ)
    → read_octet t ≡ some n
    → octets ts ≡ some ns
    → octets (t ∷ ts) ≡ some (n ∷ ns)
unfolding octets
octets-cons t ts n ns h hs = ground arith

octets-nil : octets [] ≡ some []
unfolding octets
octets-nil = refl

octets-show_v4 :
    (a b c d : ℕ)
    → a < 256
    → b < 256
    → c < 256
    → d < 256
    → octets (show_ℕ a ∷ (show_ℕ b ∷ (show_ℕ c ∷ (show_ℕ d ∷ []))))
      ≡ some (a ∷ (b ∷ (c ∷ (d ∷ []))))
octets-show_v4 a b c d ha hb hc hd = octets-cons _ _ a _ (read_octet-show_ℕ a ha) (
    octets-cons _ _ b _ (read_octet-show_ℕ b hb) (
      octets-cons _ _ c _ (read_octet-show_ℕ c hc)
        (octets-cons _ _ d _ (read_octet-show_ℕ d hd) octets-nil)))

-- For an address below 2^32, `IPv4Address(str(IPv4Address(n)))` is the address again.
pub read_v4-show_v4 : (n : ℕ) → n < 2 ^ 32 → read_v4 (show_v4 n) ≡ some n
unfolding read_v4
read_v4-show_v4 n h =
    ap (λ l. number_of (octets l)) (split-show_v4 n h)
    ∙ ap number_of (
        octets-show_v4 (n / 2 ^ 24) (n / 2 ^ 16 % 256) (n / 2 ^ 8 % 256) (n % 256) (omega arith)
          (omega arith) (omega arith) (omega arith))
    ∙ ap some (omega arith)

show_v4-injective : (i j : ℕ) → i < 2 ^ 32 → j < 2 ^ 32 → show_v4 i ≡ show_v4 j → i ≡ j
show_v4-injective i j hi hj e =
    some-eq (sym (read_v4-show_v4 i hi) ∙ ap read_v4 e ∙ read_v4-show_v4 j hj)

-- Different addresses have different texts.
pub show_v4-differ :
    (i j : ℕ) → i < 2 ^ 32 → j < 2 ^ 32 → i < j → eqb (show_v4 j) (show_v4 i) ≡ false
show_v4-differ i j hi hj lt = elim (Bool-cases (eqb (show_v4 j) (show_v4 i))) [
  | inl same ↦ absurd (omega (arith, show_v4-injective j i hj hi (eqb-eq _ _ same)))
  | inr other ↦ other
]
