-- ===== src/Uri/Dots/Reading.antt =====
-- The loop of `remove_dot_segments` follows the segments of the path.
use mathlib.Core.List.{reverse-append, reverse-reverse, append_assoc}
use freshplayerplugin.Base.{
  ℕ, ◌≡◌, refl, sym, ap, ◌∙◌, Bool, true, false, ◌&&◌, ◌||◌, List, [], ◌∷◌, ◌++◌, reverse, ◌==◌,
  if◌then◌else◌, Bytes, equal, equal_iff, length, arith,
}
use freshplayerplugin.Uri.Dots.{Dots, back, backs, is_dots, step}
use freshplayerplugin.Uri.Dots.Segments.{dot, dot_dot, parent, absolute}

-- The same last byte first, as the working copy holds it.
unfoldable pub flipped : List Bytes → Bytes
flipped [] = []
flipped (s ∷ ss) = reverse s ++ (b'/' ∷ flipped ss)

pub reverse-flipped : (ss : List Bytes) → reverse (flipped ss) ≡ absolute ss
unfolding flipped absolute
reverse-flipped [] = refl
reverse-flipped (s ∷ ss) =
    reverse-append (reverse s) (b'/' ∷ flipped ss)
    ∙ simp (
      reverse-append (b'/' ∷ []) (flipped ss),
      reverse-flipped ss,
      reverse-reverse s,
      append_assoc,
    )

unfoldable pub no_slash : Bytes → Bool
no_slash [] = true
no_slash (c ∷ cs) = if c == b'/' then false else no_slash cs

pub back-segment : (s d : Bytes) → no_slash s ≡ true → back (s ++ (b'/' ∷ d)) ≡ d
unfolding back no_slash
back-segment [] d h = ground arith
back-segment (c ∷ s) d h = ground (arith, back-segment s d)

unfoldable pub all_dots : Bytes → Bool
all_dots [] = true
all_dots (c ∷ cs) = c == b'.' && all_dots cs

-- The loop's variables when the segments `ss` are behind it and `seg` is being read.
abbrev pub reading : Bytes → List Bytes → Dots
reading seg ss = record {
  dst = seg ++ (b'/' ∷ flipped ss);
  dot_cnt = if all_dots seg then length seg else 0;
  after_slash = all_dots seg;
}

pub step-reading :
    (seg : Bytes) (ss : List Bytes) (c : ℕ)
    → (c == b'/') ≡ false
    → step (reading seg ss) c ≡ reading (c ∷ seg) ss
unfolding step all_dots
step-reading seg ss c h = ground arith

equal-reverse : (seg w : Bytes) → reverse w ≡ w → equal (reverse seg) w ≡ equal seg w
equal-reverse seg w pal = ground (
  arith,
  equal_iff (reverse seg) w,
  equal_iff seg w,
  λ (e : reverse seg ≡ w). sym (reverse-reverse seg) ∙ ap reverse e ∙ pal,
  λ (e : seg ≡ w). ap reverse e ∙ pal,
)

-- No segment of the stack has a slash in it.
unfoldable pub Clean : List Bytes → Type 0
Clean [] = Unit
Clean (s ∷ ss) = (no_slash (reverse s) ≡ true) × Clean ss

pub Clean-parent : (ss : List Bytes) → Clean ss → Clean (parent ss)
unfolding Clean
Clean-parent [] h = tt
Clean-parent (s ∷ ss) h = h.1

back-flipped : (ss : List Bytes) → Clean ss → back (flipped ss) ≡ flipped (parent ss)
unfolding flipped Clean back
back-flipped [] h = refl
back-flipped (s ∷ ss) h = unfold flipped in back-segment (reverse s) (flipped ss) h.0

-- What the loop does at a slash, and behind the end, with the segment that it has read.
pub backs-reading :
    (seg : Bytes) (ss : List Bytes)
    → no_slash seg ≡ true
    → Clean ss
    → (equal (reverse seg) dot ≡ true → backs 1 (reading seg ss).dst ≡ flipped ss)
      × (equal (reverse seg) dot_dot ≡ true → backs 2 (reading seg ss).dst ≡ flipped (parent ss))
unfolding backs
backs-reading seg ss h clean = (
  λ e. back-segment seg (flipped ss) h,
  λ e. ap back (back-segment seg (flipped ss) h) ∙ back-flipped ss clean,
)

pub dots-reading :
    (seg : Bytes)
    → ((all_dots seg && is_dots (length seg))
        ≡ (equal (reverse seg) dot || equal (reverse seg) dot_dot))
      × (equal (reverse seg) dot ≡ true → (length seg ≡ 1) × (all_dots seg ≡ true))
      × (equal (reverse seg) dot_dot ≡ true → (length seg ≡ 2) × (all_dots seg ≡ true))
dots-reading seg =
    rw (equal-reverse seg dot refl) (rw (equal-reverse seg dot_dot refl) (by_length seg))
  where
    by_length :
        (s : Bytes)
        → ((all_dots s && is_dots (length s)) ≡ (equal s dot || equal s dot_dot))
          × (equal s dot ≡ true → (length s ≡ 1) × (all_dots s ≡ true))
          × (equal s dot_dot ≡ true → (length s ≡ 2) × (all_dots s ≡ true))
    by_length [] = unfold all_dots equal in ground arith
    by_length (a ∷ []) = unfold all_dots equal in ground arith
    by_length (a ∷ b ∷ []) = unfold all_dots equal in ground arith
    by_length (a ∷ b ∷ c ∷ r) = unfold all_dots equal in ground arith
