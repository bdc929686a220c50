-- ===== src/MessageLoop/Queue/First.antt =====
-- The task that the loop runs next, and the tasks that the queue holds.
use freshplayerplugin.Base.{
  ℕ, ◌≤◌, ◌<◌, ◌≡◌, ◌≢◌, refl, ap, true, Option, none, some, List, [], ◌∷◌, ℤ, pos, negsuc, zero,
  suc, ◌||◌, inl, inr, ◌⊎◌, ◌↔◌, Bool-cases, arith,
}
use mathlib.Core.Path.{subst}
use freshplayerplugin.MessageLoop.{Task}
use freshplayerplugin.MessageLoop.Queue.{
  Sign, before, same, after, task_tree_compare_func, insert_at, tree_insert, is_appropriate,
  is_zero, geb, find_first_task_with_appropriate_depth,
}
use freshplayerplugin.MessageLoop.Queue.Order.{IsTime, total, Compares, compare-total}

abbrev pub time_of : Task → ℕ
time_of t = total t.when

abbrev pub Member : Task → List Task → Type 0
Member x [] = ⊥
Member x (y ∷ q) = (x ≡ y) ⊎ Member x q

-- All later than a time.
abbrev pub Later : ℕ → List Task → Type 0
Later n [] = Unit
Later n (t ∷ q) = (n < time_of t) × Later n q

-- The queue in order: no two tasks at the same time.
abbrev pub IsQueue : List Task → Type 0
IsQueue [] = Unit
IsQueue (t ∷ q) = IsTime t.when × Later (time_of t) q × IsQueue q

Later-trans : (m n : ℕ) (q : List Task) → m ≤ n → Later n q → Later m q
Later-trans m n [] le h = tt
Later-trans m n (t ∷ q) le h = (omega (arith, h.0), Later-trans m n q le h.1)

pub Later-Member : (n : ℕ) (x : Task) (q : List Task) → Later n q → Member x q → n < time_of x
Later-Member n x [] h m = absurd m
Later-Member n x (t ∷ q) h (inl e) = ground arith
Later-Member n x (t ∷ q) h (inr m) = Later-Member n x q h.1 m

Later-insert_at :
    (n : ℕ) (s : Sign) (t x : Task) (q rest : List Task)
    → n < time_of t
    → Later n (x ∷ q)
    → Later n rest
    → Later n (insert_at s t x q rest)
unfolding insert_at
Later-insert_at n before t x q rest lt h r = (lt, h)
Later-insert_at n same t x q rest lt h r = h
Later-insert_at n after t x q rest lt h r = (h.0, r)

Later-tree_insert :
    (n : ℕ) (t : Task) (q : List Task) → n < time_of t → Later n q → Later n (tree_insert t q)
unfolding tree_insert
Later-tree_insert n t [] lt h = (lt, tt)
Later-tree_insert n t (x ∷ q) lt h =
    Later-insert_at n (task_tree_compare_func t.when x.when) t x q (tree_insert t q) lt h
      (Later-tree_insert n t q lt h.1)

insert_at-IsQueue :
    (s : Sign) (t x : Task) (q : List Task)
    → Compares s (time_of t) (time_of x)
    → IsTime t.when
    → IsQueue (x ∷ q)
    → IsQueue (tree_insert t q)
    → IsQueue (insert_at s t x q (tree_insert t q))
unfolding insert_at
insert_at-IsQueue before t x q c time h r =
    (time, (c, Later-trans (time_of t) (time_of x) q (omega arith) h.1), h)
insert_at-IsQueue same t x q c time h r = h
insert_at-IsQueue after t x q c time h r = (h.0, Later-tree_insert (time_of x) t q c h.1, r)

-- Inserting a task keeps the queue in order.
pub tree_insert-IsQueue :
    (t : Task) (q : List Task) → IsTime t.when → IsQueue q → IsQueue (tree_insert t q)
unfolding tree_insert
tree_insert-IsQueue t [] time h = (time, tt, tt)
tree_insert-IsQueue t (x ∷ q) time h =
    insert_at-IsQueue (task_tree_compare_func t.when x.when) t x q
      (compare-total t.when x.when time h.0) time h (tree_insert-IsQueue t q time h.2)

-- A task at the same time as one in the queue.
abbrev pub Clashes : Task → List Task → Type 0
Clashes t [] = ⊥
Clashes t (x ∷ q) = (time_of t ≡ time_of x) ⊎ Clashes t q

Clashes-Later : (n : ℕ) (t : Task) (q : List Task) → Later n q → Clashes t q → n < time_of t
Clashes-Later n t [] h m = absurd m
Clashes-Later n t (x ∷ q) h (inl e) = omega arith
Clashes-Later n t (x ∷ q) h (inr m) = Clashes-Later n t q h.1 m

insert_at-clash :
    (s : Sign) (t x : Task) (q : List Task)
    → Compares s (time_of t) (time_of x)
    → Later (time_of x) q
    → Clashes t (x ∷ q)
    → (Clashes t q → tree_insert t q ≡ q)
    → insert_at s t x q (tree_insert t q) ≡ x ∷ q
unfolding insert_at
insert_at-clash before t x q c h (inl e) ih = absurd (omega arith)
insert_at-clash before t x q c h (inr m) ih =
    absurd (omega (arith, Clashes-Later (time_of x) t q h m))
insert_at-clash same t x q c h m ih = refl
insert_at-clash after t x q c h (inl e) ih = absurd (omega arith)
insert_at-clash after t x q c h (inr m) ih = ap (◌∷◌ x) (ih m)

-- Two tasks for the same nanosecond: the second one is lost. If the queue in order holds a task for
-- the time of a new one, whatever their callbacks and depths, inserting the new one changes
-- nothing.
pub tree_insert-lost :
    (t : Task) (q : List Task) → IsTime t.when → IsQueue q → Clashes t q → tree_insert t q ≡ q
unfolding tree_insert
tree_insert-lost t [] time h m = absurd m
tree_insert-lost t (x ∷ q) time h m =
    insert_at-clash (task_tree_compare_func t.when x.when) t x q
      (compare-total t.when x.when time h.0) h.1 m (tree_insert-lost t q time h.2)

insert_at-Member :
    (s : Sign) (t x y : Task) (q : List Task)
    → Compares s (time_of t) (time_of x)
    → time_of t ≢ time_of x
    → (Member y (tree_insert t q) ↔ ((y ≡ t) ⊎ Member y q))
    → Member y (insert_at s t x q (tree_insert t q)) ↔ ((y ≡ t) ⊎ Member y (x ∷ q))
unfolding insert_at
insert_at-Member before t x y q c ne ih = (λ m. m, λ m. m)
insert_at-Member same t x y q c ne ih = absurd (ne c)
insert_at-Member after t x y q c ne ih = (
  elim [ inl e ↦ inr (inl e) | inr m ↦ elim (ih.0 m) [ inl e ↦ inl e | inr r ↦ inr (inr r) ] ],
  elim [
    | inl e ↦ inr (ih.1 (inl e))
    | inr m ↦ elim m [ inl e ↦ inl e | inr r ↦ inr (ih.1 (inr r)) ]
  ],
)

-- If the queue in order holds no task for the time of a new one, inserting it adds it to the tasks
-- of the queue, and loses none.
pub tree_insert-Member :
    (t y : Task) (q : List Task)
    → IsTime t.when
    → IsQueue q
    → ¬ Clashes t q
    → Member y (tree_insert t q) ↔ ((y ≡ t) ⊎ Member y q)
unfolding tree_insert
tree_insert-Member t y [] time h no_clash = (λ m. m, λ m. m)
tree_insert-Member t y (x ∷ q) time h no_clash =
    insert_at-Member (task_tree_compare_func t.when x.when) t x y q
      (compare-total t.when x.when time h.0) (λ e. no_clash (inl e))
      (tree_insert-Member t y q time h.2 (λ m. no_clash (inr m)))

-- One number is at most another.
abbrev pub AtMost : ℤ → ℤ → Type 0
AtMost (pos a) (pos b) = a ≤ b
AtMost (pos a) (negsuc b) = ⊥
AtMost (negsuc a) (pos b) = Unit
AtMost (negsuc a) (negsuc b) = b ≤ a

-- A task that may run at a depth: its own depth is 0 or at least that.
abbrev pub MayRun : ℤ → Task → Type 0
MayRun d t = (t.depth ≡ pos 0) ⊎ AtMost d t.depth

zero_or_at_least : (d e : ℤ) → (is_zero e || geb e d ≡ true) ↔ ((e ≡ pos 0) ⊎ AtMost d e)
zero_or_at_least (pos a) (pos zero) = (λ y. inl refl, λ m. refl)
zero_or_at_least (pos a) (pos (suc b)) =
    (λ y. inr (ground arith), elim [ inl e ↦ absurd cc | inr l ↦ ground arith ])
zero_or_at_least (negsuc a) (pos zero) = (λ y. inl refl, λ m. refl)
zero_or_at_least (negsuc a) (pos (suc b)) = (λ y. inr tt, λ m. refl)
zero_or_at_least (pos a) (negsuc b) =
    (λ y. absurd cc, elim [ inl e ↦ absurd cc | inr l ↦ absurd l ])
zero_or_at_least (negsuc a) (negsuc b) =
    (λ y. inr (ground arith), elim [ inl e ↦ absurd cc | inr l ↦ ground arith ])

is_appropriate_iff : (d : ℤ) (t : Task) → (is_appropriate d t ≡ true) ↔ MayRun d t
is_appropriate_iff d t = zero_or_at_least d t.depth

-- What is the first appropriate task: it is in the queue and appropriate, and no appropriate task
-- of the queue is for an earlier time. With none, no task of the queue is appropriate.
abbrev pub IsFirst : ℤ → List Task → Option Task → Type 0
IsFirst d q none = (x : Task) → Member x q → ¬ MayRun d x
IsFirst d q (some t) =
    Member t q × MayRun d t × ((x : Task) → Member x q → MayRun d x → time_of t ≤ time_of x)

IsFirst-skip :
    (d : ℤ) (t : Task) (q : List Task) (o : Option Task)
    → ¬ MayRun d t
    → IsFirst d q o
    → IsFirst d (t ∷ q) o
IsFirst-skip d t q none n h = λ x. elim [ inl e ↦ λ a. n (subst (MayRun d) e a) | inr m ↦ h x m ]
IsFirst-skip d t q (some u) n h = (inr h.0, h.1, later)
  where
    later : (x : Task) → Member x (t ∷ q) → MayRun d x → time_of u ≤ time_of x
    later x (inl e) a = absurd (n (subst (MayRun d) e a))
    later x (inr m) a = h.2 x m a

-- On a queue in order, `find_first_task_with_appropriate_depth` finds the earliest task whose depth
-- is 0 or at least the current one, and fails only if there is no such task.
pub find_first_task_with_appropriate_depth-IsFirst :
    (d : ℤ) (q : List Task) → IsQueue q → IsFirst d q (find_first_task_with_appropriate_depth d q)
unfolding find_first_task_with_appropriate_depth
find_first_task_with_appropriate_depth-IsFirst d [] h = λ x m. absurd m
find_first_task_with_appropriate_depth-IsFirst d (t ∷ q) h =
    elim (Bool-cases (is_appropriate d t)) [
      | inl yes_here ↦ rw yes_here (inl refl, (is_appropriate_iff d t).0 yes_here, earliest)
      | inr n ↦ rw n (
          IsFirst-skip d t q (find_first_task_with_appropriate_depth d q)
            (λ m. absurd (ground (arith, n, (is_appropriate_iff d t).1 m)))
            (find_first_task_with_appropriate_depth-IsFirst d q h.2))
    ]
  where
    earliest : (x : Task) → Member x (t ∷ q) → MayRun d x → time_of t ≤ time_of x
    earliest x (inl e) a = ground arith
    earliest x (inr m) a = omega (arith, Later-Member (time_of t) x q h.1 m)
