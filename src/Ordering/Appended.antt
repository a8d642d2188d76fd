-- ===== src/Ordering/Appended.antt =====
-- A new rule of the rules page comes last in its scope.
use wiregui.Base.{
  suc, ◌+◌, ◌≤◌, Option, List, [], ◌∷◌, Text, All, ltb, filter, arith, Bool-cases, inl, inr,
}
use wiregui.Base.Int.{ℤ, pos, negsuc, pos_part, neg_part, ◌≤ℤ◌}
use wiregui.Models.{Rule}
use wiregui.Ordering.Priorities.{plus_10, max_ℤ, max_priority, in_scope, next_after, next_priority}

-- `a < b`
infix 50 ◌<ℤ◌
abbrev pub ◌<ℤ◌ : ℤ → ℤ → Type 0
a <ℤ b = suc (pos_part a + neg_part b) ≤ pos_part b + neg_part a

max_ℤ-left : (a b : ℤ) → a ≤ℤ max_ℤ a b
max_ℤ-left a b = ground arith

max_ℤ-right : (a b : ℤ) → b ≤ℤ max_ℤ a b
max_ℤ-right a b = ground arith

≤ℤ_trans : (a b c : ℤ) → a ≤ℤ b → b ≤ℤ c → a ≤ℤ c
≤ℤ_trans a b c h g = omega arith

plus_10-above : (a b : ℤ) → a ≤ℤ b → a <ℤ plus_10 b
plus_10-above a (pos n) h = omega arith
plus_10-above a (negsuc n) h = elim (Bool-cases (ltb n 10)) [
  | inl small ↦ rw small (ground arith)
  | inr large ↦ rw large (ground arith)
]

max_priority-above : (best : ℤ) (rs : List Rule) → best ≤ℤ max_priority best rs
unfolding max_priority
max_priority-above best [] = omega arith
max_priority-above best (r ∷ rs) =
    ≤ℤ_trans best (max_ℤ best r.priority) _ (max_ℤ-left best r.priority)
      (max_priority-above (max_ℤ best r.priority) rs)

max_priority-All : (best : ℤ) (rs : List Rule) → All (λ r. r.priority ≤ℤ max_priority best rs) rs
unfolding max_priority
max_priority-All best [] = tt
max_priority-All best (r ∷ rs) = (
  ≤ℤ_trans r.priority (max_ℤ best r.priority) _ (max_ℤ-right best r.priority)
      (max_priority-above (max_ℤ best r.priority) rs),
  max_priority-All (max_ℤ best r.priority) rs,
)

All-above :
    (top : ℤ) (rs : List Rule)
    → All (λ r. r.priority ≤ℤ top) rs
    → All (λ r. r.priority <ℤ plus_10 top) rs
All-above top [] h = tt
All-above top (r ∷ rs) h = (plus_10-above r.priority top h.0, All-above top rs h.1)

-- The next priority of a scope is above those of all rules of the scope.
pub next_priority-All :
    (user_id : Option Text) (rs : List Rule)
    → All (λ r. r.priority <ℤ next_priority user_id rs) (filter (in_scope user_id) rs)
unfolding next_priority
next_priority-All user_id rs = last_of (filter (in_scope user_id) rs)
  where
    last_of : (qs : List Rule) → All (λ r. r.priority <ℤ next_after qs) qs
    last_of [] = tt
    last_of (q ∷ qs) = (
      plus_10-above q.priority (max_priority q.priority qs) (max_priority-above q.priority qs),
      All-above (max_priority q.priority qs) qs (max_priority-All q.priority qs),
    )
