-- ===== src/MessageLoop/Run.antt =====
-- `ppb_message_loop_run_int` of src/ppb_message_loop.c.
pub mod Exit
pub mod Drain
pub mod Owner
use freshplayerplugin.Base.{
  ℕ, Bool, true, false, not, ◌&&◌, ◌||◌, Option, none, some, List, [], ◌∷◌, ◌++◌, ◌==◌, ltb,
  if◌then◌else◌, ℤ, pos, negsuc, incr, decr, ◌>>=◌,
}
use freshplayerplugin.Resource.{Registry, Res, got, missing, busy, acquire, add_ref, release, unref}
use freshplayerplugin.Resource.Access.{finish}
use freshplayerplugin.MessageLoop.{
  Time, Task, Loop, World, Thread, Status, ok, bad_resource, wrong_thread, in_progress, with_loop,
  loop_type,
}
use freshplayerplugin.MessageLoop.Queue.{
  tree_insert, tree_remove, find_first_task_with_appropriate_depth, is_due,
}

-- ML_NESTED, ML_INCREASE_DEPTH, ML_EXIT_ON_EMPTY
pub record Flags : Type 0 where
  pub nested : Bool
  pub increase_depth : Bool
  pub exit_on_empty : Bool

-- the local variables that change in the loop
pub record Locals : Type 0 where
  pub teardown : Bool
  pub destroy_ml : Bool

-- One round of `while (1)`: the clock's time, and what has been posted when the round waits. The
-- wait takes the first task of the queue, if there is one before the timeout.
pub record Round : Type 0 where
  pub now : Time
  pub posted : List Task

pub data Action : Type 0 where
  runs : Task → Action
  goes_on waits leaves : Action

abbrev pub gt_one : ℤ → Bool
gt_one (pos n) = ltb 1 n
gt_one (negsuc n) = false

-- the branches for a due task, which is out of the queue
due_task : Flags → ℤ → Task → Locals → Loop → Locals × Loop × Action
due_task flags depth task v l =
    if not task.terminate
    then (v, l, runs task)
    else if gt_one depth || not flags.increase_depth
    then (v, l, leaves)
    else (
      record { teardown = true; destroy_ml = task.should_destroy_ml },
      record l { teardown = true },
      goes_on,
    )

no_task : Flags → Locals → Loop → Locals × Loop × Action
no_task flags v l =
    if v.teardown
    then (v, l, leaves)
    else if flags.exit_on_empty
    then (v, l, leaves)
    else (v, l, waits)

found_task : Flags → ℤ → Time → Locals → Loop → Option Task → Locals × Loop × Action
unfolding due_task no_task
found_task flags depth now v l none = no_task flags v l
found_task flags depth now v l (some task) =
    if is_due task.when now
    then due_task flags depth task v (record l { int_q = tree_remove task l.int_q })
    else (v, l, waits)

-- A round up to the callback or the wait. The loop's fields are those of the resource, which the
-- reference taken before the loop keeps alive.
unfoldable pub turn : Flags → ℤ → Time → Locals → Loop → Locals × Loop × Action
unfolding found_task
turn flags depth now v l =
    found_task flags depth now v l (find_first_task_with_appropriate_depth depth l.int_q)

-- `g_async_queue_timeout_pop`, and the insertion
pop_posted : List Task → Loop → Loop
pop_posted [] l = l
pop_posted (t ∷ q) l = record l { async_q = q; int_q = tree_insert t l.int_q }

unfoldable pub wait : List Task → Loop → Loop
unfolding pop_posted
wait posted l = pop_posted (l.async_q ++ posted) l

abbrev pub is_leaves : Action → Bool
is_leaves (runs t) = false
is_leaves goes_on = false
is_leaves waits = false
is_leaves leaves = true

-- what happens between this round and the next; a task with no function runs nothing
unfoldable pub between : (Task → Loop → Loop) → List Task → Action → Loop → Loop
between call posted (runs t) l = elim t.callback [ none ↦ l | some f ↦ call t l ]
between call posted waits l = wait posted l
between call posted _ l = l

-- The loop over given rounds, with the callbacks' effect on the loop as a parameter; `none` if it
-- has not ended by then.
unfoldable pub rounds :
    (Task → Loop → Loop) → Flags → ℤ → List Round → Locals → Loop → Option (Locals × Loop)
unfolding between
rounds call flags depth [] v l = none
rounds call flags depth (r ∷ rs) v l =
    let out = turn flags depth r.now v l in
    let rest = rounds call flags depth rs out.0 (between call r.posted out.2 out.1) in
    if is_leaves out.2 then some (out.0, out.1) else rest

-- the tasks that are moved first under ML_EXIT_ON_EMPTY
unfoldable pub pump : List Task → List Task → List Task
pump [] q = q
pump (t ∷ posted) q = pump posted (tree_insert t q)

-- the state of the loop when the rounds begin
unfoldable pub enter : Flags → Loop → Loop
unfolding pump
enter flags l =
    let l1 = record l {
      running = true;
      teardown = false;
      depth = if flags.increase_depth then incr l.depth else l.depth;
    } in
    if flags.exit_on_empty then record l1 { async_q = []; int_q = pump l1.async_q l1.int_q } else l1

-- "mark thread as non-running", with the flags that the loop had before
unfoldable pub quit : Flags → Loop → Loop → Loop
quit flags saved l =
    let l1 = record l {
      depth = if flags.increase_depth then decr l.depth else l.depth;
      running = false;
    } in
    if flags.nested then record l1 { running = saved.running; teardown = saved.teardown } else l1

-- The work on an acquired loop, from the test for a nested run to the end.
unfoldable pub run_loop :
    (Task → Loop → Loop) → Flags → List Round → Loop → Option (Loop × Bool × Status)
unfolding enter quit rounds turn wait
run_loop call flags rs l =
    if not flags.nested && l.running
    then some (l, false, in_progress)
    else let l1 = enter flags l in
      elim (rounds call flags l1.depth rs (record { teardown = false; destroy_ml = false }) l1) [
        | none ↦ none
        | some (v, l2) ↦ some (quit flags l l2, v.destroy_ml, ok)
      ]

-- The whole run of an acquired loop. The reference that keeps it alive is taken before the lock is
-- given back in the source; here both stand behind the run.
unfoldable pub run_acquired :
    (Task → Loop → Loop)
    → Flags
    → List Round
    → ℕ
    → World
    → Res Loop
    → Registry Loop
    → Option (World × Status)
unfolding run_loop
run_acquired call flags rs h w r g = do
  (l, destroy_ml, status) ← run_loop call flags rs r.body
  let g1 = (add_ref h (finish h (λ _. l) r g)).0
  let g2 = (unref h g1).0
  some (record w { registry = if destroy_ml then (unref h g2).0 else g2 }, status)

unfoldable pub run_int :
    (Task → Loop → Loop) → Flags → List Round → ℕ → Thread → World → Option (World × Status)
unfolding with_loop run_acquired
run_int call flags rs h thread w =
    if not (thread.this_thread_message_loop == h) then some (w, wrong_thread) else do
      result ← with_loop h w.registry (some (w, bad_resource)) (run_acquired call flags rs h w)
      result

unfoldable pub run :
    (Task → Loop → Loop) → List Round → ℕ → Thread → World → Option (World × Status)
run call rs h thread w =
    run_int call (record { nested = false; increase_depth = true; exit_on_empty = false }) rs h
      thread w

unfoldable pub run_nested :
    (Task → Loop → Loop) → List Round → ℕ → Thread → World → Option (World × Status)
run_nested call rs h thread w =
    run_int call (record { nested = true; increase_depth = true; exit_on_empty = false }) rs h
      thread w
