-- ===== src/Uri/Dots/Segments.antt =====
-- Removing dot segments as RFC 3986, 5.2.4, describes it: on the segments of the path.
use freshplayerplugin.Base.{
  refl, Bool-cases, inl, inr, ◌≡◌, false, List, [], ◌∷◌, ◌++◌, reverse, ◌==◌, if◌then◌else◌, Bytes,
  equal, arith,
}

abbrev pub dot : Bytes
dot = b'.' ∷ []

abbrev pub dot_dot : Bytes
dot_dot = b'.' ∷ b'.' ∷ []

-- The segments between the slashes; `seg` is the one being read, last byte first.
unfoldable pub split_onto : Bytes → Bytes → List Bytes
split_onto seg [] = reverse seg ∷ []
split_onto seg (c ∷ cs) =
    let next = split_onto [] cs in
    let more = split_onto (c ∷ seg) cs in if c == b'/' then reverse seg ∷ next else more

abbrev pub split : Bytes → List Bytes
split = split_onto []

abbrev pub parent : List Bytes → List Bytes
parent [] = []
parent (s ∷ ss) = ss

-- RFC 3986, 5.2.4, on segments: "." is dropped, ".." drops the segment before it, and either one
-- leaves an empty segment at the end of the path. The stack has the last segment first.
abbrev pub enter : Bytes → List Bytes → List Bytes
enter s ss = if equal s dot then ss else if equal s dot_dot then parent ss else s ∷ ss

abbrev pub enter_last : Bytes → List Bytes → List Bytes
enter_last s ss =
    if equal s dot then [] ∷ ss else if equal s dot_dot then [] ∷ parent ss else s ∷ ss

unfoldable pub resolve : List Bytes → List Bytes → List Bytes
resolve ss [] = ss
resolve ss (s ∷ []) = enter_last s ss
resolve ss (s ∷ r ∷ rest) = resolve (enter s ss) (r ∷ rest)

pub split_onto_cons :
    (seg cs : Bytes) → (s : Bytes) × (rest : List Bytes) × (split_onto seg cs ≡ s ∷ rest)
unfolding split_onto
split_onto_cons seg [] = (reverse seg, [], refl)
split_onto_cons seg (c ∷ cs) = elim (Bool-cases (c == b'/')) [
  | inl e ↦ (reverse seg, split_onto [] cs, rw e)
  | inr n ↦ let (s, rest, is) = split_onto_cons (c ∷ seg) cs in (s, rest, rw n is)
]

-- Each segment of the stack behind a slash, the first one at the bottom.
unfoldable pub absolute : List Bytes → Bytes
absolute [] = []
absolute (s ∷ ss) = absolute ss ++ (b'/' ∷ s)

-- A segment that is neither "." nor "..".
abbrev pub Plain : Bytes → Type 0
Plain s = (equal s dot ≡ false) × (equal s dot_dot ≡ false)

abbrev pub AllPlain : List Bytes → Type 0
AllPlain [] = Unit
AllPlain (s ∷ ss) = Plain s × AllPlain ss

enter-AllPlain : (s : Bytes) (ss : List Bytes) → AllPlain ss → AllPlain (enter s ss)
enter-AllPlain s [] h = ground arith
enter-AllPlain s (r ∷ ss) h = ground arith

enter_last-AllPlain : (s : Bytes) (ss : List Bytes) → AllPlain ss → AllPlain (enter_last s ss)
unfolding equal
enter_last-AllPlain s [] h = ground arith
enter_last-AllPlain s (r ∷ ss) h = ground arith

pub resolve-AllPlain : (ss rest : List Bytes) → AllPlain ss → AllPlain (resolve ss rest)
unfolding resolve
resolve-AllPlain ss [] h = h
resolve-AllPlain ss (s ∷ []) h = enter_last-AllPlain s ss h
resolve-AllPlain ss (s ∷ r ∷ rest) h =
    resolve-AllPlain (enter s ss) (r ∷ rest) (enter-AllPlain s ss h)
