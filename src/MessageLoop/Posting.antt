-- ===== src/MessageLoop/Posting.antt =====
-- Posting to a message loop of src/ppb_message_loop.c, with the table of resources in between.
use freshplayerplugin.Base.{
  ℕ, ◌≡◌, ◌∙◌, Bool, false, not, ◌&&◌, some, ◌==◌, if◌then◌else◌, ℤ, Bool-cases, inl, inr,
}
use freshplayerplugin.Resource.{Res, Registry, find, store, release}
use freshplayerplugin.Resource.Find.{acquired}
use freshplayerplugin.Resource.Access.{finish}
use freshplayerplugin.Resource.Access.Effects.{
  IsFree, with_resource-free, find-finish, find-release_free,
}
use freshplayerplugin.MessageLoop.{
  Time, Task, Loop, World, ok, failed, loop_type, with_loop, push, after_delay,
  post_work_with_result,
}

abbrev pub IsFreeLoop : ℕ → Res Loop → Registry Loop → Type 0
IsFreeLoop h q g = IsFree loop_type h q g

pub with_loop-free :
    {A : Type 0} (h : ℕ) (q : Res Loop) (g : Registry Loop) (absent : A)
    (act : Res Loop → Registry Loop → A)
    → IsFreeLoop h q g
    → with_loop h g absent act ≡ some (act (acquired q) (store h (acquired q) g))
unfolding with_loop
with_loop-free h q g absent act f = with_resource-free loop_type h q g absent act f

-- The task that a successful posting adds.
abbrev pub posted_task : ℕ → ℕ → ℕ → ℕ → ℤ → Time → Task
posted_task func user_data delay_ms result depth now = record {
  when = after_delay now delay_ms;
  terminate = false;
  depth = depth;
  callback = some func;
  user_data = user_data;
  result_to_pass = result;
  should_destroy_ml = false;
}

abbrev pub is_closing : ℕ → World → Loop → Bool
is_closing h w l = not (h == w.browser_loop) && (l.running && l.teardown)

pub post_work-outcome :
    (func user_data delay_ms result : ℕ) (depth : ℤ) (now : Time) (h : ℕ) (q : Res Loop) (w : World)
    → IsFreeLoop h q w.registry
    → (w' : World) × (post_work_with_result (some func) user_data delay_ms result depth now h w
        ≡ some (w', if is_closing h w q.body then failed else ok))
      × ((j : ℕ)
          → find j w'.registry ≡ (
              if is_closing h w q.body
              then find j w.registry
              else if h == j
              then some (record q {
                body = push (posted_task func user_data delay_ms result depth now) q.body;
              })
              else find j w.registry))
unfolding post_work_with_result
post_work-outcome func user_data delay_ms result depth now h q w free =
    let g : Registry Loop = store h (acquired q) w.registry in
    elim (Bool-cases (is_closing h w q.body)) [
      | inl closing ↦ (
        record w { registry = (release h g).0 },
        with_loop-free h q w.registry _ _ free ∙ rw closing,
        λ j. rw closing (find-release_free loop_type h j q w.registry free),
      )
      | inr open_loop ↦ (
        record w {
          registry =
              finish h (push (posted_task func user_data delay_ms result depth now)) (acquired q) g;
        },
        with_loop-free h q w.registry _ _ free ∙ rw open_loop,
        λ j. rw open_loop (
            find-finish loop_type h j (push (posted_task func user_data delay_ms result depth now))
              q w.registry free),
      )
    ]
