-- ===== src/Core.antt =====
-- src/ppb_core.c: references to resources, and callbacks for the main and the browser thread through
-- the message loops of src/ppb_message_loop.c. The clock is an argument.
pub mod Trampoline
use freshplayerplugin.Base.{
  ℕ, Bool, true, false, not, Option, none, some, ◌==◌, if◌then◌else◌, pos, List, ◌>>=◌,
}
use freshplayerplugin.Resource.{Registry, add_ref, unref}
use freshplayerplugin.MessageLoop.{
  Time, Task, Loop, World, Thread, Status, post_work_with_result, get_depth,
}
use freshplayerplugin.MessageLoop.Run.{Flags, Round, run_int}

module _ {A : Type 0} where
  unfoldable pub add_ref_resource : ℕ → Registry A → Registry A
  add_ref_resource h g = (add_ref h g).0

  unfoldable pub release_resource : ℕ → Registry A → Registry A
  release_resource h g = (unref h g).0

-- The callback is its function and its data.
unfoldable pub trampoline_to_main_thread : Option ℕ → ℕ → ℕ → Time → World → Option (World × Status)
trampoline_to_main_thread func user_data result now w = do
  (w', depth) ← get_depth w.main_loop w
  post_work_with_result func user_data 0 result depth now w'.main_loop w'

unfoldable pub call_on_main_thread : ℕ → Option ℕ → ℕ → ℕ → Time → World → Option (World × Status)
call_on_main_thread delay_ms func user_data result now w =
    post_work_with_result func user_data delay_ms result (pos 1) now w.main_loop w

-- `task` is the memory with the function to call and its data, and `comt` the function that makes
-- the call. The instance is `none` if there is no living one, and says if it has an NPP; the Boolean
-- is that the browser is asked to run its loop.
unfoldable pub call_on_browser_thread : ℕ → ℕ → Option Bool → Time → World → Option (World × Bool)
call_on_browser_thread comt task alive now w = do
  (w', status) ← post_work_with_result (some comt) task 0 0 (pos 0) now w.browser_loop w
  some (w', elim alive [ none ↦ false | some npp ↦ npp ])

unfoldable pub is_main_thread : Thread → World → Bool
is_main_thread thread w = thread.this_thread_message_loop == w.main_loop

abbrev pub flags_of_activation : Flags
flags_of_activation = record { nested = true; increase_depth = true; exit_on_empty = true }

-- `activate_browser_thread_ml_ptac`, which the browser calls
unfoldable pub activate_browser_thread_ml :
    (Task → Loop → Loop) → List Round → Thread → World → Option (World × Status)
activate_browser_thread_ml call rs thread w =
    run_int call flags_of_activation rs w.browser_loop thread w
