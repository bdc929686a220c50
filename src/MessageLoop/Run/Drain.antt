-- ===== src/MessageLoop/Run/Drain.antt =====
-- A message loop of src/ppb_message_loop.c that is asked to end runs out of tasks.
use freshplayerplugin.Base.{
  ◌<◌, ◌≡◌, refl, Bool, true, false, not, ◌||◌, some, List, [], ◌∷◌, length, ℤ, Option-cases,
  Bool-cases, inl, inr, ◌⊎◌, arith,
}
use freshplayerplugin.MessageLoop.{Task, Loop}
use freshplayerplugin.MessageLoop.Queue.{
  tree_remove, find_first_task_with_appropriate_depth, is_due,
}
use freshplayerplugin.MessageLoop.Queue.First.{Member, IsQueue}
use freshplayerplugin.MessageLoop.Queue.Removal.{
  tree_remove-length, tree_remove-IsQueue, tree_remove-Member, found-Member,
}
use freshplayerplugin.MessageLoop.Run.{
  Flags, Locals, Round, Action, gt_one, due_task, no_task, found_task, turn, between, is_leaves,
  rounds,
}

-- Every task of the queue is due in every round.
abbrev pub AllDue : List Round → List Task → Type 0
AllDue [] q = Unit
AllDue (r ∷ rs) q = ((t : Task) → Member t q → is_due t.when r.now ≡ true) × AllDue rs q

AllDue-tree_remove :
    (rs : List Round) (t : Task) (q : List Task) → AllDue rs q → AllDue rs (tree_remove t q)
AllDue-tree_remove [] t q h = tt
AllDue-tree_remove (r ∷ rs) t q h =
    (λ y m. h.0 y (tree_remove-Member y t q m), AllDue-tree_remove rs t q h.1)

abbrev pub ends_on_empty : Flags → Locals → Bool
ends_on_empty flags v = v.teardown || flags.exit_on_empty

module _ (call : Task → Loop → Loop) (flags : Flags) (depth : ℤ) where
  -- The next round's queue, where a round ends that goes on.
  abbrev Goes : List Task → Locals → List Task → Loop → Action → Type 0
  Goes posted v q l a =
      (is_leaves a ≡ true)
      ⊎ ((is_leaves a ≡ false)
          × (ends_on_empty flags v ≡ true)
          × ((between call posted a l).int_q ≡ q))

  due_task-Goes :
      ((t : Task) (m : Loop) → (call t m).int_q ≡ m.int_q)
      → (posted : List Task) (task : Task) (v : Locals) (l : Loop) → ends_on_empty flags v ≡ true
      → let out = due_task flags depth task v l in Goes posted out.0 l.int_q out.1 out.2
  unfolding due_task between
  due_task-Goes keeps posted task v l e = elim (Bool-cases task.terminate) [
    | inl t ↦ elim (Bool-cases (gt_one depth || not flags.increase_depth)) [
      | inl g ↦ simp (t, g) (inl refl)
      | inr n ↦ simp (t, n) (inr (refl, refl, refl))
    ]
    | inr n ↦ elim (Option-cases task.callback) [
      | inl f ↦ simp (n, f) (inr (refl, e, refl))
      | inr (f, g) ↦ simp (n, g) (inr (refl, e, keeps task l))
    ]
  ]

  exit_is :
      (v : Locals) → v.teardown ≡ false → ends_on_empty flags v ≡ true → flags.exit_on_empty ≡ true
  exit_is v n e = ground arith

  turn-Goes :
      ((t : Task) (m : Loop) → (call t m).int_q ≡ m.int_q)
      → (r : Round) (v : Locals) (l : Loop) → ends_on_empty flags v ≡ true
      → IsQueue l.int_q
      → ((t : Task) → Member t l.int_q → is_due t.when r.now ≡ true)
      → let out = turn flags depth r.now v l in
        (is_leaves out.2 ≡ true)
        ⊎ ((task : Task) × Member task l.int_q
            × Goes r.posted out.0 (tree_remove task l.int_q) out.1 out.2)
  unfolding turn found_task no_task
  turn-Goes keeps r v l e h due =
      elim (Option-cases (find_first_task_with_appropriate_depth depth l.int_q)) [
        | inl f ↦ elim (Bool-cases v.teardown) [
          | inl t ↦ simp (f, t) (inl refl)
          | inr n ↦ simp (f, n, exit_is v n e) (inl refl)
        ]
        | inr (task, f) ↦
            let m = found-Member depth l.int_q task h f in
            simp (f, due task m)
              (inr (
                task,
                m,
                due_task-Goes keeps r.posted task v (record l { int_q = tree_remove task l.int_q })
                    e,
              ))
      ]

  -- A loop that is asked to end, by a quit request that it has met or by its caller, does end, if
  -- the callbacks leave its queue as it is, and all tasks are due: it takes at most one round more
  -- than there are tasks, whatever their depths and whatever others post meanwhile.
  pub rounds_drain :
      ((t : Task) (m : Loop) → (call t m).int_q ≡ m.int_q)
      → (rs : List Round) (v : Locals) (l : Loop) → ends_on_empty flags v ≡ true
      → IsQueue l.int_q
      → AllDue rs l.int_q
      → length l.int_q < length rs
      → (v' : Locals) × (l' : Loop) × (rounds call flags depth rs v l ≡ some (v', l'))
  unfolding rounds
  rounds_drain keeps [] v l e h due short = absurd (omega arith)
  rounds_drain keeps (r ∷ rs) v l e h due short = elim (turn-Goes keeps r v l e h due.0) [
    | inl t ↦ ((turn flags depth r.now v l).0, (turn flags depth r.now v l).1, rw t refl)
    | inr (task, m, inl t) ↦
        ((turn flags depth r.now v l).0, (turn flags depth r.now v l).1, rw t refl)
    | inr (task, m, inr (n, quits, same_q)) ↦
        let (v', l', is) =
          rounds_drain keeps rs (turn flags depth r.now v l).0
            (between call r.posted (turn flags depth r.now v l).2 (turn flags depth r.now v l).1)
            quits (rw same_q (tree_remove-IsQueue task l.int_q h))
            (rw same_q (AllDue-tree_remove rs task l.int_q due.1))
            (rw same_q (omega (arith, tree_remove-length task l.int_q h m))) in
        (v', l', rw n is)
  ]
