-- ===== src/Ordering/Persisted.antt =====
-- The rules have the order that they were dragged into.
use wiregui.Base.{
  ℕ, zero, suc, ◌+◌, ◌*◌, ◌<◌, ◌≡◌, refl, sym, ap, ◌∙◌, subst, Bool, true, false, not, ◌&&◌, ◌||◌,
  Option, none, some, List, [], ◌∷◌, Text, eqb, eqb-eq, eqb_refl, eqb_sym, has, get_elem?, arith,
  Bool-cases, inl, inr, none-ne-some, some-eq, true-ne-false,
}
use wiregui.Base.Distinct.{Distinct}
use wiregui.Models.{Rule}
use wiregui.Database.{find, rule_le}
use wiregui.Ordering.Priorities.{
  priority_step, assign_from, assign_priorities, with_priority, set_priority, persist,
  persist_order, remove_id, insert_before, cons_id, drop_on,
}

abbrev found_with : Bool → ℕ → ℕ → Option Rule → Option Rule
found_with true priority now (some r) = some (with_priority priority now r)
found_with true priority now none = none
found_with false priority now o = o

find-set_priority :
    (now : ℕ) (id k : Text) (priority : ℕ) (rs : List Rule)
    → find (λ r. r.id) k (set_priority now id priority rs)
      ≡ found_with (eqb k id) priority now (find (λ r. r.id) k rs)
unfolding find set_priority
find-set_priority now id k priority [] = elim (Bool-cases (eqb k id)) [
  | inl same ↦ rw same refl
  | inr other ↦ rw other refl
]
find-set_priority now id k priority (r ∷ rs) = elim (Bool-cases (eqb r.id k)) [
  | inl here ↦ elim (Bool-cases (eqb r.id id)) [
    | inl set ↦ rw (set, here, ap (λ t. eqb t id) (sym (eqb-eq r.id k here)) ∙ set) refl
    | inr kept ↦ rw (kept, here, ap (λ t. eqb t id) (sym (eqb-eq r.id k here)) ∙ kept) refl
  ]
  | inr other ↦ elim (Bool-cases (eqb r.id id)) [
    | inl set ↦ rw (set, other) (find-set_priority now id k priority rs)
    | inr kept ↦ rw (kept, other) (find-set_priority now id k priority rs)
  ]
]

find-persist-absent :
    (now index : ℕ) (k : Text) (ids : List Text) (rs : List Rule)
    → has k ids ≡ false
    → find (λ r. r.id) k (persist now (assign_from priority_step index ids) rs)
      ≡ find (λ r. r.id) k rs
unfolding persist assign_from
find-persist-absent now index k [] rs h = refl
find-persist-absent now index k (id ∷ ids) rs h =
    find-persist-absent now (index + 1) k ids (set_priority now id ((index + 1) * priority_step) rs)
      (ground arith)
    ∙ find-set_priority now id k ((index + 1) * priority_step) rs
    ∙ rw (eqb_sym k id ∙ other) refl
  where
    other : eqb id k ≡ false
    other = ground arith

has-get_elem? : (k : Text) (ids : List Text) (i : ℕ) → get_elem? ids i ≡ some k → has k ids ≡ true
has-get_elem? k [] i h = absurd (none-ne-some h)
has-get_elem? k (id ∷ ids) zero h = rw (some-eq h, eqb_refl k) refl
has-get_elem? k (id ∷ ids) (suc i) h = rw (has-get_elem? k ids i h) (ground arith)

find-persist :
    (now index i : ℕ) (k : Text) (ids : List Text) (r : Rule) (rs : List Rule)
    → Distinct ids
    → get_elem? ids i ≡ some k
    → find (λ q. q.id) k rs ≡ some r
    → find (λ q. q.id) k (persist now (assign_from priority_step index ids) rs)
      ≡ some (with_priority ((index + i + 1) * priority_step) now r)
unfolding persist assign_from
find-persist now index i k [] r rs once at' there = absurd (none-ne-some at')
find-persist now index zero k (id ∷ ids) r rs once at' there =
    find-persist-absent now (index + 1) k ids _
      (subst (λ t. has t ids ≡ false) (some-eq at') once.0)
    ∙ find-set_priority now id k ((index + 1) * priority_step) rs
    ∙ rw (ap (λ t. eqb k t) (some-eq at') ∙ eqb_refl k, there)
        (ap (λ x. some (with_priority x now r)) (omega arith))
find-persist now index (suc i) k (id ∷ ids) r rs once at' there =
    find-persist now (index + 1) i k ids r (set_priority now id ((index + 1) * priority_step) rs)
      once.1 at'
      (find-set_priority now id k ((index + 1) * priority_step) rs
        ∙ rw (eqb_sym k id ∙ other) there)
    ∙ ap (λ x. some (with_priority x now r)) (omega arith)
  where
    other : eqb id k ≡ false
    other = elim (Bool-cases (eqb id k)) [
      | inl same ↦ absurd (
          true-ne-false (
            sym (has-get_elem? k ids i at')
            ∙ subst (λ t. has t ids ≡ false) (eqb-eq id k same) once.0))
      | inr different ↦ different
    ]

-- After `_persist_order` of distinct ids, of two rules that are there and named the earlier comes
-- before the later one in the order of the queries, and not the other way round.
pub persist_order_lem :
    (now i j : ℕ) (a b : Text) (ids : List Text) (r s : Rule) (rs : List Rule)
    → Distinct ids
    → i < j
    → get_elem? ids i ≡ some a
    → get_elem? ids j ≡ some b
    → find (λ q. q.id) a rs ≡ some r
    → find (λ q. q.id) b rs ≡ some s
    → (r' : Rule) × (s' : Rule) × (find (λ q. q.id) a (persist_order now ids rs) ≡ some r')
      × (find (λ q. q.id) b (persist_order now ids rs) ≡ some s')
      × (rule_le r' s' ≡ true)
      × (rule_le s' r' ≡ false)
unfolding persist_order assign_priorities rule_le
persist_order_lem now i j a b ids r s rs once before at_i at_j there_r there_s = (
  with_priority ((0 + i + 1) * priority_step) now r,
  with_priority ((0 + j + 1) * priority_step) now s,
  find-persist now 0 i a ids r rs once at_i there_r,
  find-persist now 0 j b ids s rs once at_j there_s,
  ground arith,
  ground arith,
)

remove_id-has :
    (j k : Text) (xs : List Text)
    → Distinct xs
    → has j (remove_id k xs) ≡ (has j xs && not (eqb k j))
unfolding remove_id
remove_id-has j k [] once = refl
remove_id-has j k (x ∷ xs) once = elim (Bool-cases (eqb x k)) [
  | inl same ↦
      rw (same, ap (λ t. eqb t j) (sym (eqb-eq x k same)))
        (elim (Bool-cases (eqb x j)) [
          | inl here ↦ rw (here, subst (λ t. has t xs ≡ false) (eqb-eq x j here) once.0) refl
          | inr there ↦ rw there (ground arith)
        ])
  | inr other ↦ rw other (elim (Bool-cases (eqb x j)) [
    | inl here ↦ rw (here, eqb_sym k j, ap (λ t. eqb t k) (sym (eqb-eq x j here)) ∙ other) refl
    | inr there ↦ rw there (remove_id-has j k xs once.1)
  ])
]

insert_before-has :
    (target src : Text) (xs : List Text)
    → has target xs ≡ true
    → (ys : List Text) × (insert_before target src xs ≡ some ys)
      × ((j : Text) → has j ys ≡ (eqb src j || has j xs))
unfolding insert_before
insert_before-has target src [] h = absurd (true-ne-false (sym h))
insert_before-has target src (x ∷ xs) h = elim (Bool-cases (eqb x target)) [
  | inl here ↦ (src ∷ (x ∷ xs), rw here refl, λ j. refl)
  | inr other ↦
      (let (ys, is, members) = insert_before-has target src xs (rw other at h) in
        (x ∷ ys, rw other (ap (cons_id x) is), λ j. rw (members j) (ground arith)))
]

-- In an order of distinct ids, dropping a rule of it on a rule of it gives an order of the same
-- rules.
drop_on_lem :
    (src target : Text) (order : List Text)
    → Distinct order
    → has src order ≡ true
    → has target order ≡ true
    → (ys : List Text) × (drop_on src target order ≡ some ys)
      × ((j : Text) → has j ys ≡ has j order)
unfolding drop_on
drop_on_lem src target order once there_src there_target = elim (Bool-cases (eqb src target)) [
  | inl same ↦ (order, rw same refl, λ j. refl)
  | inr other ↦
      (let (ys, is, members) =
          insert_before-has target src (remove_id src order)
            (remove_id-has target src order once ∙ rw (there_target, other) refl) in
        (ys, rw other is, λ j. members j ∙ kept j))
]
  where
    kept : (j : Text) → (eqb src j || has j (remove_id src order)) ≡ has j order
    kept j = rw (remove_id-has j src order once) (elim (Bool-cases (eqb src j)) [
      | inl here ↦ rw here (sym (ap (λ t. has t order) (sym (eqb-eq src j here)) ∙ there_src))
      | inr there ↦ rw there (ground arith)
    ])
