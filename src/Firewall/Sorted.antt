-- ===== src/Firewall/Sorted.antt =====
-- `sorted(rules, key=priority)`: a stable sort, and what it is for.
use mathlib.Core.List.{Perm}
use mathlib.Core.List.Perm
use wiregui.Base.{
  ◌≡◌, refl, ◌∙◌, ◌&&◌, Option, List, [], ◌∷◌, Text, All, filter, arith, if◌then◌else◌, Bool-cases,
  inl, inr,
}
use wiregui.Base.Int.{ℤ, leb_ℤ, ◌≤ℤ◌}

-- The dict of one rule that the callers pass.
pub record FilterRule : Type 0 where
  pub destination : Text
  pub action : Text
  pub port_type : Option Text
  pub port_range : Option Text
  pub priority : ℤ

insert_rule : FilterRule → List FilterRule → List FilterRule
insert_rule r [] = r ∷ []
insert_rule r (s ∷ rs) =
    let rest = insert_rule r rs in if leb_ℤ r.priority s.priority then r ∷ (s ∷ rs) else s ∷ rest

unfoldable pub sort_rules : List FilterRule → List FilterRule
unfolding insert_rule
sort_rules [] = []
sort_rules (r ∷ rs) = insert_rule r (sort_rules rs)

-- Each priority is at most those behind it.
abbrev pub InOrder : List FilterRule → Type 0
InOrder [] = Unit
InOrder (r ∷ rs) = All (λ s. r.priority ≤ℤ s.priority) rs × InOrder rs

insert_rule-All :
    (p : ℤ) (r : FilterRule) (rs : List FilterRule)
    → p ≤ℤ r.priority
    → All (λ s. p ≤ℤ s.priority) rs
    → All (λ s. p ≤ℤ s.priority) (insert_rule r rs)
unfolding insert_rule
insert_rule-All p r [] h hs = (h, tt)
insert_rule-All p r (s ∷ rs) h hs = elim (Bool-cases (leb_ℤ r.priority s.priority)) [
  | inl le ↦ rw le (h, hs)
  | inr gt ↦ rw gt (hs.0, insert_rule-All p r rs h hs.1)
]

All-weaken :
    (p q : ℤ) (rs : List FilterRule)
    → p ≤ℤ q
    → All (λ s. q ≤ℤ s.priority) rs
    → All (λ s. p ≤ℤ s.priority) rs
All-weaken p q [] h hs = tt
All-weaken p q (r ∷ rs) h hs = (omega arith, All-weaken p q rs h hs.1)

insert_rule-InOrder :
    (r : FilterRule) (rs : List FilterRule) → InOrder rs → InOrder (insert_rule r rs)
unfolding insert_rule
insert_rule-InOrder r [] h = (tt, tt)
insert_rule-InOrder r (s ∷ rs) h = elim (Bool-cases (leb_ℤ r.priority s.priority)) [
  | inl le ↦ rw le ((ground arith, All-weaken r.priority s.priority rs (ground arith) h.0), h)
  | inr gt ↦
      rw gt (insert_rule-All s.priority r rs (ground arith) h.0, insert_rule-InOrder r rs h.1)
]

sort_rules-InOrder : (rs : List FilterRule) → InOrder (sort_rules rs)
unfolding sort_rules
sort_rules-InOrder [] = tt
sort_rules-InOrder (r ∷ rs) = insert_rule-InOrder r (sort_rules rs) (sort_rules-InOrder rs)

insert_rule-perm : (r : FilterRule) (rs : List FilterRule) → Perm (insert_rule r rs) (r ∷ rs)
unfolding insert_rule
insert_rule-perm r [] = Perm.refl (r ∷ [])
insert_rule-perm r (s ∷ rs) = elim (Bool-cases (leb_ℤ r.priority s.priority)) [
  | inl le ↦ rw le (Perm.refl _)
  | inr gt ↦ rw gt (Perm.trans (Perm.cons s (insert_rule-perm r rs)) (Perm.swap r s rs))
]

sort_rules-perm : (rs : List FilterRule) → Perm (sort_rules rs) rs
unfolding sort_rules
sort_rules-perm [] = Perm.refl []
sort_rules-perm (r ∷ rs) =
    Perm.trans (insert_rule-perm r (sort_rules rs)) (Perm.cons r (sort_rules-perm rs))

-- The rules of one priority.
abbrev pub of_priority : ℤ → List FilterRule → List FilterRule
of_priority p = filter (λ r. leb_ℤ r.priority p && leb_ℤ p r.priority)

of_priority-insert_rule :
    (p : ℤ) (r : FilterRule) (rs : List FilterRule)
    → of_priority p (insert_rule r rs) ≡ of_priority p (r ∷ rs)
unfolding insert_rule
of_priority-insert_rule p r [] = refl
of_priority-insert_rule p r (s ∷ rs) = ground (arith, of_priority-insert_rule p r rs)

of_priority-sort_rules :
    (p : ℤ) (rs : List FilterRule) → of_priority p (sort_rules rs) ≡ of_priority p rs
unfolding sort_rules
of_priority-sort_rules p [] = refl
of_priority-sort_rules p (r ∷ rs) =
    of_priority-insert_rule p r (sort_rules rs) ∙ ground (arith, of_priority-sort_rules p rs)

pub sort_rules_lem :
    (rs : List FilterRule)
    → InOrder (sort_rules rs)
      × Perm (sort_rules rs) rs
      × ((p : ℤ) → of_priority p (sort_rules rs) ≡ of_priority p rs)
sort_rules_lem rs = (sort_rules-InOrder rs, sort_rules-perm rs, λ p. of_priority-sort_rules p rs)
