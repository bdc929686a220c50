-- ===== src/Tests/Loops.antt =====
-- Message loops of src/ppb_message_loop.c with a few tasks.
use freshplayerplugin.Base.{
  ℕ, ◌≡◌, refl, true, false, none, some, List, [], ◌∷◌, if◌then◌else◌, ◌==◌, pos, inl, inr, arith,
}
use freshplayerplugin.Base.Assoc.{lookup}
use freshplayerplugin.Resource.{Res, find}
use freshplayerplugin.MessageLoop.{Time, Task, Loop, World, Thread, ok, loop_type}
use freshplayerplugin.MessageLoop.Posting.{IsFreeLoop}
use freshplayerplugin.MessageLoop.Queue.{
  tree_insert, tree_remove, find_first_task_with_appropriate_depth, is_due,
}
use freshplayerplugin.MessageLoop.Queue.First.{
  IsQueue, IsFirst, Member, Clashes, find_first_task_with_appropriate_depth-IsFirst,
  tree_insert-lost,
}
use freshplayerplugin.MessageLoop.Run.{Flags, Locals, Round, rounds, run_loop, run_int}
use freshplayerplugin.MessageLoop.Run.Drain.{rounds_drain}
use freshplayerplugin.MessageLoop.Run.Owner.{run_int-outcome}
use freshplayerplugin.MessageLoop.Run.Exit.{Restored, run_loop-Restored}

abbrev at_second : ℕ → Time
at_second s = record { sec = s; nsec = 500 }

abbrev work : ℕ → ℕ → Task
work s f = record {
  when = at_second s;
  terminate = false;
  depth = pos 0;
  callback = some f;
  user_data = 0;
  result_to_pass = 0;
  should_destroy_ml = false;
}

abbrev deep_work : Task
deep_work = record (work 1 9) { depth = pos 5 }

abbrev stop : Task
stop = record (work 3 0) { terminate = true; callback = none; should_destroy_ml = true }

abbrev queue : List Task
queue = deep_work ∷ work 2 7 ∷ []

queue-IsQueue : IsQueue queue
queue-IsQueue = (omega arith, (omega arith, tt), (omega arith, tt, tt))

find_first_task_with_appropriate_depth-IsFirst_example :
    IsFirst (pos 6) queue (find_first_task_with_appropriate_depth (pos 6) queue)
find_first_task_with_appropriate_depth-IsFirst_example =
    find_first_task_with_appropriate_depth-IsFirst (pos 6) queue queue-IsQueue

no_clash : ¬ Clashes stop queue
no_clash = elim [
  | inl e ↦ absurd (omega arith)
  | inr m ↦ elim m [ inl e ↦ absurd (omega arith) | inr n ↦ n ]
]

tree_insert-lost_example : tree_insert (work 1 8) queue ≡ queue
tree_insert-lost_example = tree_insert-lost (work 1 8) queue (omega arith) queue-IsQueue (inl refl)

abbrev idle : Loop
idle = record {
  queues = true;
  async_q = work 2 7 ∷ stop ∷ [];
  int_q = [];
  running = false;
  teardown = false;
  depth = pos 0;
}

-- The callbacks mark nothing on the loop.
abbrev nothing : Task → Loop → Loop
nothing t l = l

abbrev plain : Flags
plain = record { nested = false; increase_depth = true; exit_on_empty = false }

abbrev round : Round
round = record { now = at_second 4; posted = [] }

abbrev six : List Round
six = round ∷ round ∷ round ∷ round ∷ round ∷ round ∷ []

abbrev after_run : Loop
after_run = record idle { async_q = []; running = false; teardown = true }

run_loop-idle : run_loop nothing plain six idle ≡ some (after_run, true, ok)
unfolding run_loop find_first_task_with_appropriate_depth tree_insert tree_remove is_due
run_loop-idle = refl

run_loop-Restored_example : Restored plain idle after_run
run_loop-Restored_example =
    run_loop-Restored nothing plain six idle after_run true (λ t m. refl) run_loop-idle

abbrev started : Locals
started = record { teardown = false; destroy_ml = false }

abbrev stopping : Locals
stopping = record { teardown = true; destroy_ml = true }

abbrev ended : Loop
ended = record idle { async_q = []; teardown = true }

abbrev resource_1 : Res Loop
resource_1 = record {
  resource_type = loop_type;
  ref_cnt = pos 1;
  instance_ptr = 1;
  self_id = 1;
  locked = false;
  body = idle;
}

abbrev world : World
world = record {
  registry = record { res_tbl = (1, resource_1) ∷ []; res_tbl_next = 2; destructors = none };
  main_loop = 0;
  browser_loop = 0;
}

world-IsFree : IsFreeLoop 1 resource_1 world.registry
unfolding lookup
world-IsFree = record { there = refl; typed = refl; free = refl; counted = refl }

due_queue : (t : Task) → Member t queue → is_due t.when (at_second 4) ≡ true
unfolding is_due
due_queue t (inl e) = rw e refl
due_queue t (inr (inl e)) = rw e refl
due_queue t (inr (inr m)) = absurd m

abbrev busy_loop : Loop
busy_loop = record idle { int_q = queue }

rounds_drain_example :
    (v' : Locals) × (l' : Loop) × (rounds nothing plain
        (pos 6)
        (round ∷ round ∷ round ∷ [])
        stopping
        busy_loop
      ≡ some (v', l'))
rounds_drain_example =
    rounds_drain nothing plain (pos 6) (λ t m. refl) (round ∷ round ∷ round ∷ []) stopping busy_loop
      refl queue-IsQueue (due_queue, (due_queue, (due_queue, tt))) (omega arith)

abbrev attached : Thread
attached = record { this_thread_message_loop = 1; not_suitable = false }

run_int-outcome_example :
    (w' : World) × (run_int nothing plain six 1 attached world ≡ some (w', ok))
    × ((j : ℕ) → find j w'.registry ≡ (if 1 == j then none else find j world.registry))
run_int-outcome_example =
    run_int-outcome nothing plain six 1 attached resource_1 world after_run true ok world-IsFree
      refl run_loop-idle
