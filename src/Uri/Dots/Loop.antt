-- ===== src/Uri/Dots/Loop.antt =====
-- Each step of the loop of `remove_dot_segments`, and the whole loop.
use mathlib.Core.List.{reverse-reverse}
use freshplayerplugin.Base.{
  ◌≡◌, refl, sym, ap, ◌∙◌, true, false, ◌&&◌, List, [], ◌∷◌, reverse, ◌==◌, ==_iff, if◌then◌else◌,
  Bytes, equal, length, Bool-cases, inl, inr, arith,
}
use freshplayerplugin.Uri.Dots.{backs, is_dots, step, steps, start, finish, remove_dot_segments}
use freshplayerplugin.Uri.Dots.Segments.{
  dot, dot_dot, split_onto, split, parent, enter, enter_last, resolve, absolute, AllPlain,
  resolve-AllPlain, split_onto_cons,
}
use freshplayerplugin.Uri.Dots.Reading.{
  flipped, reverse-flipped, no_slash, all_dots, reading, step-reading, Clean, Clean-parent,
  backs-reading, dots-reading,
}

-- The bytes that stand when a segment has been read, whichever it is.
settle : Bytes → List Bytes → Bytes
settle seg ss =
    if all_dots seg && is_dots (length seg)
    then backs (length seg) (reading seg ss).dst
    else (reading seg ss).dst

settle-dot :
    (seg : Bytes) (ss : List Bytes)
    → no_slash seg ≡ true
    → Clean ss
    → equal (reverse seg) dot ≡ true
    → settle seg ss ≡ flipped ss
unfolding settle
settle-dot seg ss h clean e =
    let (len, all) = (dots-reading seg).1 e in rw (all, len) ((backs-reading seg ss h clean).0 e)

settle-dot_dot :
    (seg : Bytes) (ss : List Bytes)
    → no_slash seg ≡ true
    → Clean ss
    → equal (reverse seg) dot_dot ≡ true
    → settle seg ss ≡ flipped (parent ss)
unfolding settle
settle-dot_dot seg ss h clean e =
    let (len, all) = (dots-reading seg).2 e in rw (all, len) ((backs-reading seg ss h clean).1 e)

settle_other :
    (seg : Bytes) (ss : List Bytes)
    → equal (reverse seg) dot ≡ false
    → equal (reverse seg) dot_dot ≡ false
    → settle seg ss ≡ flipped (reverse seg ∷ ss)
unfolding settle flipped
settle_other seg ss a b = rw (reverse-reverse seg) (ground (arith, (dots-reading seg).0))

step_slash :
    (seg : Bytes) (ss : List Bytes)
    → step (reading seg ss) b'/'
      ≡ record { dst = b'/' ∷ settle seg ss; dot_cnt = 0; after_slash = true }
unfolding step settle
step_slash seg ss = ground arith

step-enter :
    (seg : Bytes) (ss : List Bytes)
    → no_slash seg ≡ true
    → Clean ss
    → step (reading seg ss) b'/' ≡ reading [] (enter (reverse seg) ss)
unfolding all_dots
step-enter seg ss h clean = step_slash seg ss ∙ elim (Bool-cases (equal (reverse seg) dot)) [
  | inl e ↦ rw (settle-dot seg ss h clean e) (rw e)
  | inr n ↦ elim (Bool-cases (equal (reverse seg) dot_dot)) [
    | inl e ↦ rw (settle-dot_dot seg ss h clean e) (rw (n, e))
    | inr m ↦ rw (settle_other seg ss n m) (rw (n, m))
  ]
]

finish-settle :
    (seg : Bytes) (ss : List Bytes)
    → finish (reading seg ss)
      ≡ (if all_dots seg && is_dots (length seg) then b'/' ∷ settle seg ss else settle seg ss)
unfolding finish settle
finish-settle seg ss = ground arith

finish-enter_last :
    (seg : Bytes) (ss : List Bytes)
    → no_slash seg ≡ true
    → Clean ss
    → finish (reading seg ss) ≡ flipped (enter_last (reverse seg) ss)
finish-enter_last seg ss h clean =
    finish-settle seg ss ∙ elim (Bool-cases (equal (reverse seg) dot)) [
      | inl e ↦ rw (settle-dot seg ss h clean e, (dots-reading seg).0, e) (unfold flipped in refl)
      | inr n ↦ elim (Bool-cases (equal (reverse seg) dot_dot)) [
        | inl e ↦
            rw (settle-dot_dot seg ss h clean e, (dots-reading seg).0, n, e)
              (unfold flipped in refl)
        | inr m ↦ rw (settle_other seg ss n m, (dots-reading seg).0, n, m)
      ]
    ]

Clean-enter :
    (seg : Bytes) (ss : List Bytes)
    → no_slash seg ≡ true
    → Clean ss
    → Clean (enter (reverse seg) ss)
Clean-enter seg ss h clean = elim (Bool-cases (equal (reverse seg) dot)) [
  | inl e ↦ rw e clean
  | inr n ↦ elim (Bool-cases (equal (reverse seg) dot_dot)) [
    | inl e ↦ rw (n, e) (Clean-parent ss clean)
    | inr m ↦ rw (n, m) (unfold Clean in (rw (reverse-reverse seg) h, clean))
  ]
]

resolve-split_onto :
    (s seg cs : Bytes) (ss : List Bytes)
    → resolve ss (s ∷ split_onto seg cs) ≡ resolve (enter s ss) (split_onto seg cs)
resolve-split_onto s seg cs ss =
    let (r, rest, is) = split_onto_cons seg cs in rw is (unfold resolve in refl)

steps-resolve :
    (cs seg : Bytes) (ss : List Bytes)
    → no_slash seg ≡ true
    → Clean ss
    → finish (steps (reading seg ss) cs) ≡ flipped (resolve ss (split_onto seg cs))
unfolding steps split_onto resolve flipped finish
steps-resolve [] seg ss h clean = finish-enter_last seg ss h clean ∙ unfold resolve in refl
steps-resolve (c ∷ cs) seg ss h clean = elim (Bool-cases (c == b'/')) [
  | inl e ↦
      let slash : c ≡ b'/' = (==_iff c b'/').0 e in
      rw e (
        ap (λ d. finish (steps d cs)) (ap (step (reading seg ss)) slash ∙ step-enter seg ss h clean)
        ∙ steps-resolve cs [] (enter (reverse seg) ss) (unfold no_slash in refl)
            (Clean-enter seg ss h clean)
        ∙ ap flipped (sym (resolve-split_onto (reverse seg) [] cs ss)))
  | inr n ↦ rw n (
      ap (λ d. finish (steps d cs)) (step-reading seg ss c n)
      ∙ steps-resolve cs (c ∷ seg) ss (unfold no_slash in rw n h) clean)
]

start-reading : step start b'/' ≡ reading [] []
unfolding step all_dots flipped
start-reading = ground arith

-- On a path that begins with a slash, `remove_dot_segments` does what RFC 3986 describes: it splits
-- the rest at the slashes, drops each "." segment, lets each ".." segment drop the segment before
-- it, leaves an empty last segment for a last "." or "..", and puts a slash before each segment
-- that is left.
pub remove_dot_segments-resolve :
    (p : Bytes) → remove_dot_segments (b'/' ∷ p) ≡ absolute (resolve [] (split p))
unfolding remove_dot_segments steps
remove_dot_segments-resolve p =
    ap (λ d. reverse (finish (steps d p))) start-reading
    ∙ ap reverse (steps-resolve p [] [] (unfold no_slash in refl) (unfold Clean in tt))
    ∙ reverse-flipped (resolve [] (split p))

-- On a path that begins with a slash, the result of `remove_dot_segments` is made of segments
-- behind slashes, none of which is "." or "..".
pub remove_dot_segments-AllPlain :
    (p : Bytes) → (ss : List Bytes) × (remove_dot_segments (b'/' ∷ p) ≡ absolute ss) × AllPlain ss
remove_dot_segments-AllPlain p =
    (resolve [] (split p), remove_dot_segments-resolve p, resolve-AllPlain [] (split p) tt)
