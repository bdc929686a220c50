-- ===== src/MessageLoop/Run/Exit.antt =====
-- When a message loop of src/ppb_message_loop.c ends, and what it leaves.
use freshplayerplugin.Base.{
  ◌≡◌, refl, ◌∙◌, Bool, true, false, not, ◌&&◌, ◌||◌, Option, none, some, List, [], ◌∷◌, ℤ,
  decr-incr, Option-cases, Bool-cases, inl, inr, arith,
}
use mathlib.Core.Path.{subst}
use freshplayerplugin.MessageLoop.{Time, Task, Loop, Status, ok, in_progress}
use freshplayerplugin.MessageLoop.Queue.{
  tree_remove, find_first_task_with_appropriate_depth, is_due,
}
use freshplayerplugin.MessageLoop.Run.{
  Flags, Locals, Round, Action, runs, goes_on, waits, leaves, gt_one, found_task, turn, wait,
  pop_posted, between, is_leaves, rounds, enter, quit, run_loop,
}

-- How a run of rounds leaves the loop, from one state to another. In the last round there is nothing
-- to do, after a quit request or where the caller asked to stop on an empty queue; or the earliest
-- task that may run is, at a nested level, a quit request that is due in that round, and it is taken
-- out of the queue. The rounds before it have not left.
pub data Ends (call : Task → Loop → Loop) (flags : Flags) (depth : ℤ)
    : List Round → Locals → Loop → Locals → Loop → Type 0 where
  drained :
      {r : Round} {rs : List Round} {v : Locals} {l : Loop}
      → find_first_task_with_appropriate_depth depth l.int_q ≡ none
      → (v.teardown || flags.exit_on_empty) ≡ true
      → Ends call flags depth (r ∷ rs) v l v l
  nested_quit :
      {r : Round} {rs : List Round} {v : Locals} {l : Loop} (task : Task)
      → find_first_task_with_appropriate_depth depth l.int_q ≡ some task
      → is_due task.when r.now ≡ true
      → task.terminate ≡ true
      → (gt_one depth || not flags.increase_depth) ≡ true
      → Ends call flags depth (r ∷ rs) v l v (record l { int_q = tree_remove task l.int_q })
  later :
      {r : Round} {rs : List Round} {v v' : Locals} {l l' : Loop}
      → is_leaves (turn flags depth r.now v l).2 ≡ false
      → Ends call flags depth rs
          (turn flags depth r.now v l).0
          (between call r.posted (turn flags depth r.now v l).2 (turn flags depth r.now v l).1)
          v'
          l'
      → Ends call flags depth (r ∷ rs) v l v' l'

module _ (call : Task → Loop → Loop) (flags : Flags) (depth : ℤ) where
  -- The callbacks leave the nesting depth as it was: a nested run undoes its own change of it.
  between-depth :
      ((t : Task) (m : Loop) → (call t m).depth ≡ m.depth)
      → (posted : List Task) (a : Action) (l : Loop) → (between call posted a l).depth ≡ l.depth
  unfolding between wait pop_posted
  between-depth keeps posted (runs t) l = elim (Option-cases t.callback) [
    | inl e ↦ simp e
    | inr (f, e) ↦ simp e (keeps t l)
  ]
  between-depth keeps posted goes_on l = refl
  between-depth keeps posted waits l = ground arith
  between-depth keeps posted leaves l = refl

  found_task-depth :
      (now : Time) (v : Locals) (l : Loop) (o : Option Task)
      → (found_task flags depth now v l o).1.depth ≡ l.depth
  unfolding found_task
  found_task-depth now v l none = ground arith
  found_task-depth now v l (some task) = ground arith

  rounds-depth :
      ((t : Task) (m : Loop) → (call t m).depth ≡ m.depth)
      → (rs : List Round) (v v' : Locals) (l l' : Loop)
      → rounds call flags depth rs v l ≡ some (v', l')
      → l'.depth ≡ l.depth
  unfolding rounds turn
  rounds-depth keeps [] v v' l l' e = cc
  rounds-depth keeps (r ∷ rs) v v' l l' e =
      let o : Option Task = find_first_task_with_appropriate_depth depth l.int_q in
      elim (Bool-cases (is_leaves (turn flags depth r.now v l).2)) [
        | inl t ↦ ground (arith, rw t at e, found_task-depth r.now v l o)
        | inr n ↦
            rounds-depth keeps rs (turn flags depth r.now v l).0 v'
              (between call r.posted (turn flags depth r.now v l).2 (turn flags depth r.now v l).1)
              l' (rw n at e)
            ∙ between-depth keeps r.posted (turn flags depth r.now v l).2
                (turn flags depth r.now v l).1
            ∙ found_task-depth r.now v l o
      ]

-- The loop's flags as the caller of the run sees them afterwards.
abbrev pub Restored : Flags → Loop → Loop → Type 0
Restored flags before after =
    (after.depth ≡ before.depth)
    × (flags.nested ≡ true → (after.running ≡ before.running) × (after.teardown ≡ before.teardown))
    × (flags.nested ≡ false → after.running ≡ false)

quit-Restored :
    (flags : Flags) (saved l : Loop)
    → l.depth ≡ (enter flags saved).depth
    → Restored flags saved (quit flags saved l)
unfolding enter quit
quit-Restored flags saved l d = ground (arith, decr-incr saved.depth)

run_found-Restored :
    (call : Task → Loop → Loop) (flags : Flags) (rs : List Round) (l l' : Loop) (destroy_ml : Bool)
    (o : Option (Locals × Loop))
    → ((t : Task) (m : Loop) → (call t m).depth ≡ m.depth)
    → rounds call flags
        (enter flags l).depth
        rs
        (record { teardown = false; destroy_ml = false })
        (enter flags l)
      ≡ o
    → ◌≡◌ {A = Option (Loop × Bool × Status)}
        (elim o [ none ↦ none | some (v, l2) ↦ some (quit flags l l2, v.destroy_ml, ok) ])
        (some (l', destroy_ml, ok))
    → Restored flags l l'
run_found-Restored call flags rs l l' destroy_ml none keeps f e = cc
run_found-Restored call flags rs l l' destroy_ml (some (v, l2)) keeps f e =
    let is : quit flags l l2 ≡ l' = ground arith in
    subst (λ x. Restored flags l x) is
      (quit-Restored flags l l2 (
        rounds-depth call flags (enter flags l).depth keeps rs
          (record { teardown = false; destroy_ml = false }) v (enter flags l) l2 f))

-- If the callbacks leave the loop's nesting depth as it was, so does a run of the loop that
-- succeeds: a nested run also puts the running and teardown flags back as they were, and a run that
-- is not nested leaves the loop marked as not running.
pub run_loop-Restored :
    (call : Task → Loop → Loop) (flags : Flags) (rs : List Round) (l l' : Loop) (destroy_ml : Bool)
    → ((t : Task) (m : Loop) → (call t m).depth ≡ m.depth)
    → run_loop call flags rs l ≡ some (l', destroy_ml, ok)
    → Restored flags l l'
unfolding run_loop
run_loop-Restored call flags rs l l' destroy_ml keeps e =
    elim (Bool-cases (not flags.nested && l.running)) [
      | inl t ↦ absurd (refused (rw t at e))
      | inr n ↦
          run_found-Restored call flags rs l l' destroy_ml
            (rounds call flags (enter flags l).depth rs
              (record { teardown = false; destroy_ml = false }) (enter flags l))
            keeps refl (rw n at e)
    ]
  where
    refused :
        ◌≡◌ {A = Option (Loop × Bool × Status)}
          (some (l, false, in_progress))
          (some (l', destroy_ml, ok))
        → ⊥
    refused h = cc
