-- ===== src/Tasks/Notifications.antt =====
-- The queue of wiregui/services/notifications.py, a `deque` of at most 100, the newest first.
use wiregui.Base.{
  ℕ, ◌≤◌, Option, List, [], ◌∷◌, Text, eqb, length, take, length-take, if◌then◌else◌, arith,
}

pub record Notification : Type 0 where
  pub id : Text
  pub severity : Text
  pub message : Text
  pub user : Option Text
  pub timestamp : ℕ

abbrev pub max_notifications : ℕ
max_notifications = 100

-- `add`: `appendleft` drops what is over the limit at the other end.
unfoldable pub add_notification : Notification → List Notification → List Notification
add_notification n q = take max_notifications (n ∷ q)

-- `clear`: the first notification of the id.
unfoldable pub clear_notification : Text → List Notification → List Notification
clear_notification id [] = []
clear_notification id (n ∷ q) =
    let rest = clear_notification id q in if eqb n.id id then q else n ∷ rest

unfoldable pub clear_all : List Notification → List Notification
clear_all q = []

unfoldable pub count : List Notification → ℕ
count q = length q

-- The operations on the queue.
pub data QueueOp : Type 0 where
  adds : Notification → QueueOp
  clears : Text → QueueOp
  clears_all : QueueOp

unfoldable pub apply_op : QueueOp → List Notification → List Notification
unfolding add_notification clear_notification clear_all
apply_op (adds n) q = add_notification n q
apply_op (clears id) q = clear_notification id q
apply_op clears_all q = clear_all q

abbrev pub apply_ops : List QueueOp → List Notification → List Notification
apply_ops [] q = q
apply_ops (o ∷ os) q = apply_ops os (apply_op o q)

length-clear_notification :
    (id : Text) (q : List Notification) → length (clear_notification id q) ≤ length q
unfolding clear_notification
length-clear_notification id [] = omega arith
length-clear_notification id (n ∷ q) = ground (arith, length-clear_notification id q)

length-apply_op :
    (o : QueueOp) (q : List Notification)
    → length q ≤ max_notifications
    → length (apply_op o q) ≤ max_notifications
unfolding apply_op add_notification clear_all
length-apply_op (adds n) q h = omega (arith, length-take 99 q)
length-apply_op (clears id) q h = omega (arith, length-clear_notification id q)
length-apply_op clears_all q h = omega arith

-- However a queue of at most 100 is used, it never holds more than 100 notifications.
pub count-apply_ops :
    (os : List QueueOp) (q : List Notification)
    → count q ≤ max_notifications
    → count (apply_ops os q) ≤ max_notifications
unfolding count
count-apply_ops [] q h = h
count-apply_ops (o ∷ os) q h = count-apply_ops os (apply_op o q) (length-apply_op o q h)
