-- ===== src/MessageLoop/Queue/Order.antt =====
-- The order of the queue, and the times that the loop compares.
use freshplayerplugin.Base.{
  ℕ, zero, suc, ◌+◌, ◌-◌, ◌*◌, ◌/◌, ◌%◌, ◌≤◌, ◌<◌, ◌≡◌, refl, true, leb, inl, inr, Bool-cases,
  arith,
}
use freshplayerplugin.MessageLoop.{Time, carry, after_delay}
use freshplayerplugin.MessageLoop.Queue.{Sign, before, same, after, task_tree_compare_func, is_due}

-- Both parts of a time that the clock gives: the nanoseconds are below a second.
abbrev pub IsTime : Time → Type 0
IsTime t = t.nsec < 1000000000

-- In nanoseconds.
abbrev pub total : Time → ℕ
total t = t.sec * 1000000000 + t.nsec

abbrev pub Compares : Sign → ℕ → ℕ → Type 0
Compares before m n = m < n
Compares same m n = m ≡ n
Compares after m n = n < m

-- The comparison of two times is the comparison of their nanoseconds.
pub compare-total :
    (a b : Time) → IsTime a → IsTime b → Compares (task_tree_compare_func a b) (total a) (total b)
unfolding task_tree_compare_func
compare-total a b ha hb = ground arith

carry_lem :
    (fuel : ℕ) (t : Time)
    → t.nsec / 1000000000 < fuel
    → IsTime (carry fuel t) × (total (carry fuel t) ≡ total t)
unfolding carry
carry_lem zero t h = elim h [ ]
carry_lem (suc fuel) t h = elim (Bool-cases (leb 1000000000 t.nsec)) [
  | inl e ↦
      let next : Time = record { sec = t.sec + 1; nsec = t.nsec - 1000000000 } in
      let (a, b) = carry_lem fuel next (ground arith) in rw e (a, ground arith)
  | inr e ↦ rw e (ground arith, refl)
]

-- The time that a posted task gets is its delay in milliseconds after the time of the clock, and
-- its nanoseconds are below a second: the loop that carries them over ends with nothing lost.
pub after_delay-total :
    (now : Time) (delay_ms : ℕ)
    → IsTime (after_delay now delay_ms)
      × (total (after_delay now delay_ms) ≡ total now + delay_ms * 1000000)
unfolding after_delay
after_delay-total now delay_ms =
    let n : ℕ = now.nsec + delay_ms % 1000 * 1000 * 1000 in
    let t : Time = record { sec = now.sec + delay_ms / 1000; nsec = n } in
    let (a, b) = carry_lem (n / 1000000000 + 1) t (omega arith) in (a, omega (arith, b))

-- A task whose time has come is due, and one that is due is less than a microsecond early.
pub is_due_bounds :
    (when now : Time)
    → IsTime when
    → IsTime now
    → (total when ≤ total now → is_due when now ≡ true)
      × (is_due when now ≡ true → total when < total now + 1000)
unfolding is_due
is_due_bounds when now hw hn = ground arith
