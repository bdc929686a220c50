-- ===== src/MessageLoop/Queue.antt =====
-- The tree of tasks of src/ppb_message_loop.c: a `GTree` by `task_tree_compare_func`, as the list
-- that its in-order traversal visits. As GLib documents, an insertion under a key that is there
-- keeps the old key, and so the old task.
pub mod Order
pub mod First
pub mod Removal
use freshplayerplugin.Base.{
  ℕ, zero, suc, ◌+◌, ◌-◌, ◌*◌, ◌/◌, Bool, true, false, ◌||◌, Option, none, some, List, [], ◌∷◌, ltb,
  leb, if◌then◌else◌, ℤ, pos, negsuc,
}
use freshplayerplugin.MessageLoop.{Time, Task}

-- the three results of the comparison: -1, 0, 1
pub data Sign : Type 0 where
  before same after : Sign

unfoldable pub task_tree_compare_func : Time → Time → Sign
task_tree_compare_func a b =
    if ltb a.sec b.sec
    then before
    else if ltb b.sec a.sec
    then after
    else if ltb a.nsec b.nsec
    then before
    else if ltb b.nsec a.nsec
    then after
    else same

-- The node of `x`, with `q` behind it; `rest` is `q` with the task inserted, or removed.
unfoldable pub insert_at : Sign → Task → Task → List Task → List Task → List Task
insert_at before t x q rest = t ∷ x ∷ q
insert_at same t x q rest = x ∷ q
insert_at after t x q rest = x ∷ rest

unfoldable pub tree_insert : Task → List Task → List Task
unfolding insert_at task_tree_compare_func
tree_insert t [] = t ∷ []
tree_insert t (x ∷ q) = insert_at (task_tree_compare_func t.when x.when) t x q (tree_insert t q)

unfoldable pub remove_at : Sign → Task → List Task → List Task → List Task
remove_at before x q rest = x ∷ q
remove_at same x q rest = q
remove_at after x q rest = x ∷ rest

unfoldable pub tree_remove : Task → List Task → List Task
unfolding remove_at task_tree_compare_func
tree_remove t [] = []
tree_remove t (x ∷ q) = remove_at (task_tree_compare_func t.when x.when) x q (tree_remove t q)

-- `a >= b` on `int`
abbrev pub geb : ℤ → ℤ → Bool
geb (pos a) (pos b) = leb b a
geb (pos a) (negsuc b) = true
geb (negsuc a) (pos b) = false
geb (negsuc a) (negsuc b) = leb a b

abbrev pub is_zero : ℤ → Bool
is_zero (pos zero) = true
is_zero (pos (suc n)) = false
is_zero (negsuc n) = false

-- the test of `task_tree_traverse_func`
abbrev pub is_appropriate : ℤ → Task → Bool
is_appropriate current_depth t = is_zero t.depth || geb t.depth current_depth

-- the traversal, which stops at the first task that passes
unfoldable pub find_first_task_with_appropriate_depth : ℤ → List Task → Option Task
find_first_task_with_appropriate_depth d [] = none
find_first_task_with_appropriate_depth d (t ∷ q) =
    if is_appropriate d t then some t else find_first_task_with_appropriate_depth d q

-- `timeout <= 0`, where `timeout` is the difference of the seconds in microseconds and the
-- difference of the nanoseconds divided by 1000, towards zero
unfoldable pub is_due : Time → Time → Bool
is_due when now =
    if leb now.nsec when.nsec
    then leb (when.sec * 1000000 + (when.nsec - now.nsec) / 1000) (now.sec * 1000000)
    else leb (when.sec * 1000000) (now.sec * 1000000 + (now.nsec - when.nsec) / 1000)
