-- ===== src/Core/Trampoline.antt =====
-- Callbacks of src/ppb_core.c in the main loop.
use freshplayerplugin.Base.{
  ℕ, ◌≡◌, refl, ◌∙◌, true, some, ◌==◌, if◌then◌else◌, ℤ, pos, negsuc, arith,
}
use freshplayerplugin.Resource.{Res, Registry, find, store, release}
use freshplayerplugin.Resource.Find.{acquired}
use freshplayerplugin.Resource.Access.Effects.{find-release_free}
use freshplayerplugin.MessageLoop.{Time, Loop, World, ok, failed, loop_type, push, get_depth}
use freshplayerplugin.MessageLoop.Posting.{
  IsFreeLoop, with_loop-free, posted_task, is_closing, post_work-outcome,
}
use freshplayerplugin.MessageLoop.Queue.{is_appropriate, geb}
use freshplayerplugin.Core.{trampoline_to_main_thread}

get_depth-free :
    (h : ℕ) (q : Res Loop) (w : World)
    → IsFreeLoop h q w.registry
    → (g : Registry Loop) × (get_depth h w ≡ some (record w { registry = g }, q.body.depth))
      × ((j : ℕ) → find j g ≡ find j w.registry)
unfolding get_depth
get_depth-free h q w free = (
  (release h (store h (acquired q) w.registry)).0,
  with_loop-free h q w.registry (w, pos 0)
      (λ r g. (record w { registry = (release h g).0 }, r.body.depth)) free,
  λ j. find-release_free loop_type h j q w.registry free,
)

geb_refl : (z : ℤ) → geb z z ≡ true
geb_refl (pos n) = ground arith
geb_refl (negsuc n) = ground arith

-- A callback that is trampolined to a main loop that no thread is inside of becomes a task behind
-- the others of that loop, due at once, unless the loop is being torn down; no other resource
-- changes. The task has the depth that the loop has then, so a run at this depth takes it for its
-- own.
pub trampoline_to_main_thread-outcome :
    (func user_data result : ℕ) (now : Time) (q : Res Loop) (w : World)
    → IsFreeLoop w.main_loop q w.registry
    → let task = posted_task func user_data 0 result q.body.depth now in
      let closing = is_closing w.main_loop w q.body in
      (w' : World) × (trampoline_to_main_thread (some func) user_data result now w
        ≡ some (w', if closing then failed else ok))
      × ((j : ℕ)
          → find j w'.registry ≡ (
              if closing
              then find j w.registry
              else if w.main_loop == j
              then some (record q { body = push task q.body })
              else find j w.registry))
      × (is_appropriate q.body.depth task ≡ true)
unfolding trampoline_to_main_thread
trampoline_to_main_thread-outcome func user_data result now q w free =
    let h : ℕ = w.main_loop in
    let (g, read, same) = get_depth-free h q w free in
    let w1 : World = record w { registry = g } in
    let free1 : IsFreeLoop h q g = record {
      there = same h ∙ free.there;
      typed = free.typed;
      free = free.free;
      counted = free.counted;
    } in
    let (w2, posted, table) =
      post_work-outcome func user_data 0 result q.body.depth now h q w1 free1 in
    (w2, rw read posted, λ j. table j ∙ rw (same j) refl, ground (arith, geb_refl q.body.depth))
