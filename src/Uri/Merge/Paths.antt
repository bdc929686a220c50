-- ===== src/Uri/Merge/Paths.antt =====
-- The path of a resolved reference, segment by segment.
use mathlib.Core.List.{reverse-append, reverse-reverse, reverse-cons, append_assoc}
use freshplayerplugin.Base.{
  ℕ, ◌≡◌, refl, sym, ap, ◌∙◌, true, false, List, [], ◌∷◌, ◌++◌, reverse, ◌==◌, Bytes, drop,
  Bool-cases, inl, inr, arith,
}
use freshplayerplugin.Uri.Dots.{remove_dot_segments}
use freshplayerplugin.Uri.Dots.Segments.{split_onto, split, resolve, absolute, split_onto_cons}
use freshplayerplugin.Uri.Dots.Loop.{remove_dot_segments-resolve}
use freshplayerplugin.Uri.Merge.{
  Components, nonempty, urlcomponent_is_empty, authority_is_not_empty, extract_component, drop_name,
  merge_path, starts_with_slash, target,
}

-- All segments but the last.
abbrev pub init : List Bytes → List Bytes
init [] = []
init (s ∷ []) = []
init (s ∷ r ∷ rest) = s ∷ init (r ∷ rest)

init-split_onto : (s seg cs : Bytes) → init (s ∷ split_onto seg cs) ≡ s ∷ init (split_onto seg cs)
init-split_onto s seg cs = let (r, rest, is) = split_onto_cons seg cs in rw is

split_onto_slash :
    (a seg b : Bytes) → split_onto seg (a ++ (b'/' ∷ b)) ≡ split_onto seg a ++ split b
unfolding split_onto
split_onto_slash [] seg b = refl
split_onto_slash (c ∷ a) seg b = elim (Bool-cases (c == b'/')) [
  | inl e ↦ rw e (ap (◌∷◌ (reverse seg)) (split_onto_slash a [] b))
  | inr n ↦ rw n (split_onto_slash a (c ∷ seg) b)
]

init-split_slash : (a seg : Bytes) → init (split_onto seg (a ++ (b'/' ∷ []))) ≡ split_onto seg a
unfolding split_onto
init-split_slash [] seg = refl
init-split_slash (c ∷ a) seg = elim (Bool-cases (c == b'/')) [
  | inl e ↦ rw e (
      init-split_onto (reverse seg) [] (a ++ (b'/' ∷ []))
      ∙ ap (◌∷◌ (reverse seg)) (init-split_slash a []))
  | inr n ↦ rw n (init-split_slash a (c ∷ seg))
]

init-split_name :
    (a seg : Bytes) (c : ℕ)
    → (c == b'/') ≡ false
    → init (split_onto seg (a ++ (c ∷ []))) ≡ init (split_onto seg a)
unfolding split_onto
init-split_name [] seg c h = rw h
init-split_name (x ∷ a) seg c h = elim (Bool-cases (x == b'/')) [
  | inl e ↦ rw e (
      init-split_onto (reverse seg) [] (a ++ (c ∷ []))
      ∙ ap (◌∷◌ (reverse seg)) (init-split_name a [] c h)
      ∙ sym (init-split_onto (reverse seg) [] a))
  | inr n ↦ rw n (init-split_name a (x ∷ seg) c h)
]

-- Up to the last slash: the segments before the last one.
split-drop_name :
    (d r : Bytes) → split (reverse (drop_name d) ++ r) ≡ init (split (reverse d)) ++ split r
unfolding drop_name
split-drop_name [] r = unfold split_onto in refl
split-drop_name (c ∷ d) r = elim (Bool-cases (c == b'/')) [
  | inl e ↦
      let slash : c ≡ b'/' = ground arith in
      rw e (
        rw slash (
          rw (reverse-cons b'/' d) (
            rw (append_assoc (reverse d) (b'/' ∷ []) r) (
              split_onto_slash (reverse d) [] r
              ∙ ap (λ (x : List Bytes). x ++ split r) (sym (init-split_slash (reverse d) []))))))
  | inr n ↦ rw n (
      split-drop_name d r
      ∙ ap (λ (x : List Bytes). x ++ split r)
          (sym (rw (reverse-cons c d) (init-split_name (reverse d) [] c n))))
]

drop_name_root : (d : Bytes) → drop_name (d ++ (b'/' ∷ [])) ≡ drop_name d ++ (b'/' ∷ [])
unfolding drop_name
drop_name_root [] = refl
drop_name_root (c ∷ d) = ground (arith, drop_name_root d)

directory_root :
    (p : Bytes) → reverse (drop_name (reverse (b'/' ∷ p))) ≡ b'/' ∷ reverse (drop_name (reverse p))
directory_root p =
    ap (λ d. reverse (drop_name d)) (reverse-cons b'/' p)
    ∙ ap reverse (drop_name_root (reverse p))
    ∙ reverse-append (drop_name (reverse p)) (b'/' ∷ [])

merge_path-directory :
    (base_uri : Bytes) (base_c : Components) (rel_uri : Bytes) (rel_c : Components)
    → nonempty base_c.path ≡ true
    → merge_path base_uri base_c rel_uri rel_c
      ≡ reverse (drop_name (reverse (extract_component base_uri base_c.path)))
        ++ extract_component rel_uri rel_c.path
unfolding merge_path
merge_path-directory base_uri base_c rel_uri rel_c h = ground arith

target_path :
    (base_uri : Bytes) (base_c : Components) (rel_uri : Bytes) (rel_c : Components)
    → urlcomponent_is_empty rel_c.scheme ≡ true
    → authority_is_not_empty rel_c ≡ false
    → nonempty rel_c.path ≡ true
    → starts_with_slash (drop rel_c.path.begin rel_uri) ≡ false
    → (target base_uri base_c rel_uri rel_c).path
      ≡ remove_dot_segments (merge_path base_uri base_c rel_uri rel_c)
unfolding target
target_path base_uri base_c rel_uri rel_c a b c d = rw (a, b, c, d)

-- A reference with neither scheme nor authority, whose path is not empty and does not begin with a
-- slash, against a base whose path begins with a slash: the path of the result has the segments of
-- the base's path without the last one, followed by those of the reference, with the dot segments
-- removed as RFC 3986 describes.
pub target-relative_path :
    (base_uri : Bytes) (base_c : Components) (rel_uri : Bytes) (rel_c : Components) (p : Bytes)
    → urlcomponent_is_empty rel_c.scheme ≡ true
    → authority_is_not_empty rel_c ≡ false
    → nonempty rel_c.path ≡ true
    → starts_with_slash (drop rel_c.path.begin rel_uri) ≡ false
    → nonempty base_c.path ≡ true
    → extract_component base_uri base_c.path ≡ b'/' ∷ p
    → (target base_uri base_c rel_uri rel_c).path
      ≡ absolute (resolve [] (init (split p) ++ split (extract_component rel_uri rel_c.path)))
target-relative_path base_uri base_c rel_uri rel_c p no_scheme no_authority some_path relative
      base_path is =
    let rel_path : Bytes = extract_component rel_uri rel_c.path in
    let merged : merge_path base_uri base_c rel_uri rel_c
        ≡ b'/' ∷ (reverse (drop_name (reverse p)) ++ rel_path) =
      merge_path-directory base_uri base_c rel_uri rel_c base_path
      ∙ ap (λ d. reverse (drop_name (reverse d)) ++ rel_path) is
      ∙ ap (λ d. d ++ rel_path) (directory_root p) in
    target_path base_uri base_c rel_uri rel_c no_scheme no_authority some_path relative
    ∙ ap remove_dot_segments merged
    ∙ remove_dot_segments-resolve (reverse (drop_name (reverse p)) ++ rel_path)
    ∙ ap (λ ss. absolute (resolve [] ss))
        (split-drop_name (reverse p) rel_path
          ∙ ap (λ d. init (split d) ++ split rel_path) (reverse-reverse p))
