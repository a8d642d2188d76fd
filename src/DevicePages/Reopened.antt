-- ===== src/DevicePages/Reopened.antt =====
-- Saving the edit dialog as it was opened.
use wiregui.Base.{
  ◌≡◌, ◌≢◌, refl, sym, ap, ◌∙◌, Bool, true, false, Option, none, some, List, [], ◌∷◌, ◌++◌,
  append_assoc, Text, codes, strip, split, split_first, split_last, contains, contains-append, join,
  length, ◌==◌, All, arith, text_or_empty,
}
use wiregui.Base.Int.{pos}
use wiregui.Models.{Device}
use wiregui.Net.{Network, ip_network, show_network}
use wiregui.Ordering.{stripped_or_none}
use wiregui.SettingsPage.{listed}
use wiregui.Allocation.{parse_subnet_list}
use wiregui.DevicePages.Form.{
  unless_default, with_numbers, put_subnets, int_or_none, edited_with, edited_device,
  edited_by_admin, number_text, form_of,
}
use wiregui.DevicePages.Numbers.{int_or_none-number_text}

-- An entry of a list that a comma separates: stripped, not empty, without a comma.
abbrev pub IsItem : Text → Type 0
IsItem e = (strip e ≡ e) × ((length e == 0) ≡ false) × (contains b',' e ≡ false)

-- A network as the program writes it.
abbrev pub IsCanonical : Text → Type 0
IsCanonical e =
    IsItem e × ((network : Network) × (ip_network e ≡ some network) × (show_network network ≡ e))

-- What may stand in front of an entry: nothing, or the space behind a comma.
abbrev IsGap : Text → Type 0
IsGap gap = (contains b',' gap ≡ false) × ((e : Text) → strip (gap ++ e) ≡ strip e)

piece :
    (gap e : Text)
    → IsGap gap
    → IsItem e
    → (contains b',' (gap ++ e) ≡ false) × (strip (gap ++ e) ≡ e)
piece gap e (no_comma, strips) (solid, full, plain) =
    (contains-append b',' gap e ∙ ground arith, strips e ∙ solid)

split-join_cons :
    (gap x y : Text) (ys : List Text)
    → IsGap gap
    → IsItem x
    → split b',' (gap ++ join (codes ", ") (x ∷ (y ∷ ys)))
      ≡ (gap ++ x) ∷ split b',' ((b' ' ∷ []) ++ join (codes ", ") (y ∷ ys))
split-join_cons gap x y ys g item =
    ap (split b',') (sym (append_assoc gap x (b',' ∷ (b' ' ∷ join (codes ", ") (y ∷ ys)))))
    ∙ split_first b',' (gap ++ x) (b' ' ∷ join (codes ", ") (y ∷ ys)) (piece gap x g item).0

space : IsGap (b' ' ∷ [])
space = (refl, λ e. refl)

listed-gap :
    (gap x : Text) (xs : List Text)
    → IsGap gap
    → All IsItem (x ∷ xs)
    → listed (gap ++ join (codes ", ") (x ∷ xs)) ≡ x ∷ xs
unfolding listed
listed-gap gap x [] g (item, rest) =
    rw (split_last b',' (gap ++ x) (piece gap x g item).0)
      (rw ((piece gap x g item).1, item.1) refl)
listed-gap gap x (y ∷ ys) g (item, rest) =
    rw (split-join_cons gap x y ys g item) (
      rw ((piece gap x g item).1, item.1)
        (ap (λ l. x ∷ l) (listed-gap (b' ' ∷ []) y ys space rest)))

pub listed-join : (xs : List Text) → All IsItem xs → listed (join (codes ", ") xs) ≡ xs
listed-join [] h = unfold listed in refl
listed-join (x ∷ xs) h = listed-gap [] x xs (refl, λ e. refl) h

parse_subnet_list-gap :
    (gap x : Text) (xs : List Text)
    → IsGap gap
    → All IsCanonical (x ∷ xs)
    → parse_subnet_list (gap ++ join (codes ", ") (x ∷ xs)) ≡ some (x ∷ xs)
unfolding parse_subnet_list
parse_subnet_list-gap gap x [] g ((item, (network, parsed, shown)), rest) =
    rw (split_last b',' (gap ++ x) (piece gap x g item).0)
      (rw ((piece gap x g item).1, item.1) (rw parsed (rw shown refl)))
parse_subnet_list-gap gap x (y ∷ ys) g ((item, (network, parsed, shown)), rest) =
    rw (split-join_cons gap x y ys g item) (
      rw ((piece gap x g item).1, item.1)
        (rw parsed (rw (parse_subnet_list-gap (b' ' ∷ []) y ys space rest) (rw shown refl))))

parse_subnet_list-join :
    (xs : List Text) → All IsCanonical xs → parse_subnet_list (join (codes ", ") xs) ≡ some xs
parse_subnet_list-join [] h = unfold parse_subnet_list in refl
parse_subnet_list-join (x ∷ xs) h = parse_subnet_list-gap [] x xs (refl, λ e. refl) h

-- An optional text as a form gives it.
abbrev pub IsEntry : Option Text → Type 0
IsEntry none = Unit
IsEntry (some t) = (strip t ≡ t) × ((length t == 0) ≡ false)

stripped_or_none-text_or_empty :
    (o : Option Text) → IsEntry o → stripped_or_none (text_or_empty o) ≡ o
stripped_or_none-text_or_empty none h = refl
stripped_or_none-text_or_empty (some t) h = rw h.0 (rw h.1 refl)

-- A device whose columns are as forms give them; a column counts only where its switch is off.
pub record IsPlain (d : Device) : Type 0 where
  pub name : strip d.name ≡ d.name
  pub description : IsEntry d.description
  pub endpoint : d.use_default_endpoint ≡ false → IsEntry d.endpoint
  pub dns : d.use_default_dns ≡ false → All IsItem d.dns
  pub allowed_ips : d.use_default_allowed_ips ≡ false → All IsItem d.allowed_ips
  pub mtu : d.use_default_mtu ≡ false → d.mtu ≢ some (pos 0)
  pub keepalive : d.use_default_persistent_keepalive ≡ false → d.persistent_keepalive ≢ some (pos 0)

unless_default-same {ℓ} :
    {A : Type ℓ} (b : Bool) (old new : A) → (b ≡ false → new ≡ old) → unless_default b old new ≡ old
unless_default-same true old new h = refl
unless_default-same false old new h = h refl

edited_with-form_of :
    (d : Device) → IsPlain d → edited_with (form_of d) d d.mtu d.persistent_keepalive ≡ d
unfolding form_of
edited_with-form_of d plain =
    let desc = stripped_or_none-text_or_empty d.description plain.description in
    let endpoint =
      unless_default-same d.use_default_endpoint d.endpoint
        (stripped_or_none (text_or_empty d.endpoint))
        (λ off. stripped_or_none-text_or_empty d.endpoint (plain.endpoint off)) in
    let dns =
      unless_default-same d.use_default_dns d.dns (listed (join (codes ", ") d.dns))
        (λ off. listed-join d.dns (plain.dns off)) in
    let ips =
      unless_default-same d.use_default_allowed_ips d.allowed_ips
        (listed (join (codes ", ") d.allowed_ips))
        (λ off. listed-join d.allowed_ips (plain.allowed_ips off)) in
    λ i. record d {
      name = plain.name i;
      description = desc i;
      endpoint = endpoint i;
      dns = dns i;
      allowed_ips = ips i;
    }

edited_device-form_of : (d : Device) → IsPlain d → edited_device (form_of d) d ≡ some d
unfolding edited_device form_of
edited_device-form_of d plain =
    ap
      (λ o.
        with_numbers o
          (unless_default d.use_default_persistent_keepalive (some d.persistent_keepalive)
            (int_or_none (number_text d.persistent_keepalive)))
          (edited_with (form_of d) d))
      (unless_default-same d.use_default_mtu (some d.mtu) (int_or_none (number_text d.mtu))
        (λ off. int_or_none-number_text d.mtu (plain.mtu off)))
    ∙ ap (λ o. with_numbers (some d.mtu) o (edited_with (form_of d) d))
        (unless_default-same d.use_default_persistent_keepalive (some d.persistent_keepalive)
          (int_or_none (number_text d.persistent_keepalive))
          (λ off. int_or_none-number_text d.persistent_keepalive (plain.keepalive off)))
    ∙ ap some (edited_with-form_of d plain)

-- The administrator's edit dialog, saved as it was opened on a device whose columns are as forms
-- give them and whose relay subnets are networks as the program writes them, changes nothing.
pub edited_by_admin-form_of :
    (d : Device)
    → IsPlain d
    → All IsCanonical d.allowed_subnets
    → edited_by_admin (form_of d) d ≡ some d
unfolding edited_by_admin form_of
edited_by_admin-form_of d plain canonical =
    ap (λ o. put_subnets o (edited_device (form_of d) d))
      (parse_subnet_list-join d.allowed_subnets canonical)
    ∙ ap (put_subnets (some d.allowed_subnets)) (edited_device-form_of d plain)
