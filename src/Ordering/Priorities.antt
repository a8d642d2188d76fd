-- ===== src/Ordering/Priorities.antt =====
-- `assign_priorities`, and `_persist_order`, `do_drop` and `_next_priority` of the rules page.
use wiregui.Base.{
  ℕ, ◌+◌, ◌-◌, ◌*◌, Bool, true, false, Option, none, some, List, [], ◌∷◌, Text, eqb, ltb, filter,
  if◌then◌else◌,
}
use wiregui.Base.Int.{ℤ, pos, negsuc, leb_ℤ}
use wiregui.Models.{Rule}
use wiregui.Database.{owned_by}

abbrev pub priority_step : ℕ
priority_step = 10

-- The mapping in the order in which its keys came, from a place on.
unfoldable pub assign_from : ℕ → ℕ → List Text → List (Text × ℕ)
assign_from step index [] = []
assign_from step index (id ∷ ids) = (id, (index + 1) * step) ∷ assign_from step (index + 1) ids

unfoldable pub assign_priorities : ℕ → List Text → List (Text × ℕ)
unfolding assign_from
assign_priorities step ordered_ids = assign_from step 0 ordered_ids

abbrev pub with_priority : ℕ → ℕ → Rule → Rule
with_priority priority now r = record r { priority = pos priority; updated_at = now }

-- The row of an id, if there is one, is given the priority.
unfoldable pub set_priority : ℕ → Text → ℕ → List Rule → List Rule
set_priority now id priority [] = []
set_priority now id priority (r ∷ rs) =
    (if eqb r.id id then with_priority priority now r else r) ∷ set_priority now id priority rs

unfoldable pub persist : ℕ → List (Text × ℕ) → List Rule → List Rule
unfolding set_priority
persist now [] rs = rs
persist now (m ∷ ms) rs = persist now ms (set_priority now m.0 m.1 rs)

-- `_persist_order`
unfoldable pub persist_order : ℕ → List Text → List Rule → List Rule
unfolding persist assign_priorities
persist_order now ordered_ids rs = persist now (assign_priorities priority_step ordered_ids) rs

-- `order.remove(src)` of a list without repetition, and `order.insert(order.index(target), src)`;
-- `none` is the `ValueError` of a target that is not there.
unfoldable pub remove_id : Text → List Text → List Text
remove_id k [] = []
remove_id k (x ∷ xs) = let rest = remove_id k xs in if eqb x k then xs else x ∷ rest

abbrev pub cons_id : Text → Option (List Text) → Option (List Text)
cons_id x none = none
cons_id x (some xs) = some (x ∷ xs)

unfoldable pub insert_before : Text → Text → List Text → Option (List Text)
insert_before target src [] = none
insert_before target src (x ∷ xs) =
    let rest = insert_before target src xs in
    if eqb x target then some (src ∷ (x ∷ xs)) else cons_id x rest

-- The order after `do_drop`.
unfoldable pub drop_on : Text → Text → List Text → Option (List Text)
unfolding remove_id insert_before
drop_on src target order =
    if eqb src target then some order else insert_before target src (remove_id src order)

-- `max(existing) + 10`, or 10.
abbrev pub plus_10 : ℤ → ℤ
plus_10 (pos n) = pos (n + 10)
plus_10 (negsuc n) = if ltb n 10 then pos (9 - n) else negsuc (n - 10)

abbrev pub max_ℤ : ℤ → ℤ → ℤ
max_ℤ a b = if leb_ℤ a b then b else a

unfoldable pub max_priority : ℤ → List Rule → ℤ
max_priority best [] = best
max_priority best (r ∷ rs) = max_priority (max_ℤ best r.priority) rs

-- The rules of the user, or those of no user.
abbrev pub in_scope : Option Text → Rule → Bool
in_scope none r = elim (r.user_id) [ none ↦ true | some u ↦ false ]
in_scope (some user_id) r = owned_by user_id r.user_id

abbrev pub next_after : List Rule → ℤ
next_after [] = pos 10
next_after (r ∷ rs) = plus_10 (max_priority r.priority rs)

-- `_next_priority`
unfoldable pub next_priority : Option Text → List Rule → ℤ
unfolding max_priority
next_priority user_id rs = next_after (filter (in_scope user_id) rs)
