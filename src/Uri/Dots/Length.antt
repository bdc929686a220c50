-- ===== src/Uri/Dots/Length.antt =====
-- `remove_dot_segments` stays inside its working copy.
use freshplayerplugin.Base.{
  ℕ, zero, suc, ◌+◌, ◌≤◌, ◌<◌, ◌≡◌, refl, [], ◌∷◌, reverse, Bytes, length, length-append, arith,
}
use mathlib.Core.List.{reverse-cons}
use freshplayerplugin.Uri.Dots.{Dots, back, backs, step, steps, start, finish, remove_dot_segments}

back-length : (d : Bytes) → length (back d) ≤ length d
unfolding back
back-length [] = omega arith
back-length (c ∷ d) = ground (arith, back-length d)

back-shortens : (d : Bytes) → 0 < length d → length (back d) < length d
unfolding back
back-shortens [] h = elim h [ ]
back-shortens (c ∷ d) h = ground (arith, back-length d)

backs-length : (k : ℕ) (d : Bytes) → length (backs k d) ≤ length d
unfolding backs
backs-length zero d = omega arith
backs-length (suc k) d = omega (arith, backs-length k (back d), back-length d)

-- The dots that are counted have been written.
abbrev Room : ℕ → Dots → Type 0
Room n s = (length s.dst ≤ n) × (s.dot_cnt ≤ length s.dst)

step-Room : (n c : ℕ) (s : Dots) → Room n s → Room (suc n) (step s c)
unfolding step
step-Room n c s h = ground (arith, backs-length s.dot_cnt s.dst)

steps-Room : (cs : Bytes) (n : ℕ) (s : Dots) → Room n s → Room (n + length cs) (steps s cs)
unfolding steps
steps-Room [] n s h = omega arith
steps-Room (c ∷ cs) n s h =
    let (a, b) = steps-Room cs (suc n) (step s c) (step-Room n c s h) in (omega (arith, a), b)

finish-length : (n : ℕ) (s : Dots) → Room n s → length (finish s) ≤ n
unfolding finish backs
finish-length n s h =
    ground (arith, back-shortens s.dst, back-length s.dst, back-length (back s.dst))

length-reverse : (d : Bytes) → length (reverse d) ≡ length d
length-reverse [] = refl
length-reverse (c ∷ d) =
    rw (reverse-cons c d) (omega (arith, length-append (reverse d) (c ∷ []), length-reverse d))

-- Whatever the path, after any number of bytes the loop of `remove_dot_segments` has written at
-- most as many, and the result is no longer than the path: the working copy is large enough.
pub remove_dot_segments-length :
    (s : Bytes)
    → (length (steps start s).dst ≤ length s) × (length (remove_dot_segments s) ≤ length s)
unfolding remove_dot_segments
remove_dot_segments-length s =
    let room = steps-Room s 0 start (omega arith, omega arith) in
    (
      omega (arith, room.0),
      omega (
        arith,
        room.0,
        length-reverse (finish (steps start s)),
        finish-length (length s) (steps start s) (omega (arith, room.0), room.1),
      ),
    )
