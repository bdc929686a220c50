-- ===== src/MessageLoop/Queue/Removal.antt =====
-- Taking a task out of the queue of src/ppb_message_loop.c.
use freshplayerplugin.Base.{
  ℕ, suc, ◌<◌, ◌≡◌, refl, ap, ◌∙◌, some, List, [], ◌∷◌, length, ℤ, inl, inr, arith,
}
use mathlib.Core.Path.{subst}
use freshplayerplugin.MessageLoop.{Time, Task}
use freshplayerplugin.MessageLoop.Queue.{
  Sign, before, same, after, task_tree_compare_func, remove_at, tree_remove,
  find_first_task_with_appropriate_depth,
}
use freshplayerplugin.MessageLoop.Queue.Order.{IsTime, Compares, compare-total}
use freshplayerplugin.MessageLoop.Queue.First.{
  time_of, Member, Later, IsQueue, IsFirst, Later-Member,
  find_first_task_with_appropriate_depth-IsFirst,
}

compare_self : (a : Time) → task_tree_compare_func a a ≡ same
unfolding task_tree_compare_func
compare_self a = ground arith

Member-IsTime : (t : Task) (q : List Task) → IsQueue q → Member t q → IsTime t.when
Member-IsTime t [] h m = absurd m
Member-IsTime t (x ∷ q) h (inl e) = ground arith
Member-IsTime t (x ∷ q) h (inr m) = Member-IsTime t q h.2 m

-- The member that is removed need not be the one asked for: the tree compares times.
remove_at-after :
    (s : Sign) (x : Task) (m n : ℕ) (q rest : List Task)
    → Compares s m n
    → n < m
    → remove_at s x q rest ≡ x ∷ rest
unfolding remove_at
remove_at-after before x m n q rest c h = absurd (omega arith)
remove_at-after same x m n q rest c h = absurd (omega arith)
remove_at-after after x m n q rest c h = refl

pub tree_remove-length :
    (t : Task) (q : List Task) → IsQueue q → Member t q → suc (length (tree_remove t q)) ≡ length q
unfolding tree_remove remove_at
tree_remove-length t [] h m = absurd m
tree_remove-length t (x ∷ q) h (inl e) =
    rw (ap (λ (u : Task). task_tree_compare_func u.when x.when) e ∙ compare_self x.when) refl
tree_remove-length t (x ∷ q) h (inr m) =
    rw
      (remove_at-after (task_tree_compare_func t.when x.when) x (time_of t) (time_of x) q
        (tree_remove t q) (compare-total t.when x.when (Member-IsTime t q h.2 m) h.0)
        (Later-Member (time_of x) t q h.1 m))
      (ap suc (tree_remove-length t q h.2 m))

remove_at-Later :
    (n : ℕ) (s : Sign) (x : Task) (q rest : List Task)
    → Later n (x ∷ q)
    → Later n rest
    → Later n (remove_at s x q rest)
unfolding remove_at
remove_at-Later n before x q rest h r = h
remove_at-Later n same x q rest h r = h.1
remove_at-Later n after x q rest h r = (h.0, r)

tree_remove-Later : (n : ℕ) (t : Task) (q : List Task) → Later n q → Later n (tree_remove t q)
unfolding tree_remove
tree_remove-Later n t [] h = tt
tree_remove-Later n t (x ∷ q) h =
    remove_at-Later n (task_tree_compare_func t.when x.when) x q (tree_remove t q) h
      (tree_remove-Later n t q h.1)

remove_at-IsQueue :
    (s : Sign) (x : Task) (q rest : List Task)
    → IsQueue (x ∷ q)
    → Later (time_of x) rest
    → IsQueue rest
    → IsQueue (remove_at s x q rest)
unfolding remove_at
remove_at-IsQueue before x q rest h l r = h
remove_at-IsQueue same x q rest h l r = h.2
remove_at-IsQueue after x q rest h l r = (h.0, l, r)

pub tree_remove-IsQueue : (t : Task) (q : List Task) → IsQueue q → IsQueue (tree_remove t q)
unfolding tree_remove
tree_remove-IsQueue t [] h = tt
tree_remove-IsQueue t (x ∷ q) h =
    remove_at-IsQueue (task_tree_compare_func t.when x.when) x q (tree_remove t q) h
      (tree_remove-Later (time_of x) t q h.1) (tree_remove-IsQueue t q h.2)

remove_at-Member :
    (y : Task) (s : Sign) (x : Task) (q rest : List Task)
    → (Member y rest → Member y q)
    → Member y (remove_at s x q rest)
    → Member y (x ∷ q)
unfolding remove_at
remove_at-Member y before x q rest f m = m
remove_at-Member y same x q rest f m = inr m
remove_at-Member y after x q rest f (inl e) = inl e
remove_at-Member y after x q rest f (inr m) = inr (f m)

pub tree_remove-Member : (y t : Task) (q : List Task) → Member y (tree_remove t q) → Member y q
unfolding tree_remove
tree_remove-Member y t [] m = m
tree_remove-Member y t (x ∷ q) m =
    remove_at-Member y (task_tree_compare_func t.when x.when) x q (tree_remove t q)
      (tree_remove-Member y t q) m

pub found-Member :
    (d : ℤ) (q : List Task) (t : Task)
    → IsQueue q
    → find_first_task_with_appropriate_depth d q ≡ some t
    → Member t q
found-Member d q t h e =
    (subst (IsFirst d q) e (find_first_task_with_appropriate_depth-IsFirst d q h)).0
