-- ===== src/MessageLoop/Run/Owner.antt =====
-- What a whole run of a message loop of src/ppb_message_loop.c leaves in the table of resources.
use freshplayerplugin.Base.{
  ℕ, ◌≡◌, refl, ap, ◌∙◌, ◌>>=◌, Bool, true, false, Option, some, List, ◌==◌, if◌then◌else◌,
  decr-incr, is_nonpos, arith,
}
use freshplayerplugin.Resource.{Res, Registry, find, store, add_ref, unref}
use freshplayerplugin.Resource.Find.{find-add_ref, find-unref, acquired, less, more}
use freshplayerplugin.Resource.Access.{finish}
use freshplayerplugin.Resource.Access.Effects.{find-finish}
use freshplayerplugin.MessageLoop.{Task, Loop, World, Thread, Status, bad_resource, loop_type}
use freshplayerplugin.MessageLoop.Posting.{IsFreeLoop, with_loop-free}
use freshplayerplugin.MessageLoop.Run.{Flags, Round, run_loop, run_acquired, run_int}

-- The loop's entry after its body has changed, and after one reference less if it is to go.
abbrev pub left_over : Bool → Res Loop → Option (Res Loop)
left_over destroy_ml r = if destroy_ml then less (some r) else some r

less-more : (r : Res Loop) → is_nonpos r.ref_cnt ≡ false → less (more (some r)) ≡ some r
less-more r e = ground (arith, decr-incr r.ref_cnt)

find-unref-add_ref :
    (h j : ℕ) (r : Res Loop) (g : Registry Loop)
    → find h g ≡ some r
    → is_nonpos r.ref_cnt ≡ false
    → find j (unref h (add_ref h g).0).0 ≡ find j g
find-unref-add_ref h j r g there e =
    find-unref h j (add_ref h g).0
    ∙ ground (arith, find-add_ref h h g, find-add_ref h j g, there, less-more r e)

find-kept :
    (h j : ℕ) (q : Res Loop) (l : Loop) (g : Registry Loop)
    → IsFreeLoop h q g
    → find j (unref h (add_ref h (finish h (λ _. l) (acquired q) (store h (acquired q) g))).0).0
      ≡ (if h == j then some (record q { body = l }) else find j g)
find-kept h j q l g free =
    find-unref-add_ref h j (record q { body = l })
      (finish h (λ _. l) (acquired q) (store h (acquired q) g))
      (find-finish loop_type h h (λ _. l) q g free ∙ ground arith) free.counted
    ∙ find-finish loop_type h j (λ _. l) q g free

find-left_over :
    (destroy_ml : Bool) (h j : ℕ) (r : Res Loop) (g g2 : Registry Loop)
    → ((k : ℕ) → find k g2 ≡ (if h == k then some r else find k g))
    → find j (if destroy_ml then (unref h g2).0 else g2)
      ≡ (if h == j then left_over destroy_ml r else find j g)
find-left_over false h j r g g2 is = is j
find-left_over true h j r g g2 is = find-unref h j g2 ∙ ground (arith, is h, is j)

run_acquired-ran :
    (call : Task → Loop → Loop) (flags : Flags) (rs : List Round) (h : ℕ) (w : World) (r : Res Loop)
    (g : Registry Loop) (l : Loop) (destroy_ml : Bool) (status : Status)
    → run_loop call flags rs r.body ≡ some (l, destroy_ml, status)
    → let g2 = (unref h (add_ref h (finish h (λ _. l) r g)).0).0 in
      run_acquired call flags rs h w r g
      ≡ some (record w { registry = if destroy_ml then (unref h g2).0 else g2 }, status)
unfolding run_acquired
run_acquired-ran call flags rs h w r g l destroy_ml status ran = rw ran refl

-- A run by the thread that is attached to the loop, when no thread is inside its lock and the
-- callbacks change nothing in the table but the loop's body: in the table only the loop's entry is different. It has the body that the run of the loop has left and the
-- same count, or one reference less if a quit request asked for its destruction; so it is gone if
-- its creator's was the only one.
pub run_int-outcome :
    (call : Task → Loop → Loop) (flags : Flags) (rs : List Round) (h : ℕ) (thread : Thread)
    (q : Res Loop) (w : World) (l : Loop) (destroy_ml : Bool) (status : Status)
    → IsFreeLoop h q w.registry
    → thread.this_thread_message_loop ≡ h
    → run_loop call flags rs q.body ≡ some (l, destroy_ml, status)
    → (w' : World) × (run_int call flags rs h thread w ≡ some (w', status))
      × ((j : ℕ)
          → find j w'.registry
            ≡ (if h == j then left_over destroy_ml (record q { body = l }) else find j w.registry))
unfolding run_int
run_int-outcome call flags rs h thread q w l destroy_ml status free here ran =
    let g : Registry Loop = store h (acquired q) w.registry in
    let g2 : Registry Loop = (unref h (add_ref h (finish h (λ _. l) (acquired q) g)).0).0 in
    let t : (thread.this_thread_message_loop == h) ≡ true = ground arith in
    (
      record w { registry = if destroy_ml then (unref h g2).0 else g2 },
      simp t (
          ap (λ (x : Option (Option (World × Status))). x >>= (λ r. r))
            (with_loop-free h q w.registry (some (w, bad_resource)) (run_acquired call flags rs h w)
              free)
          ∙ run_acquired-ran call flags rs h w (acquired q) g l destroy_ml status ran),
      λ j.
          find-left_over destroy_ml h j (record q { body = l }) w.registry g2
            (λ k. find-kept h k q l w.registry free),
    )
