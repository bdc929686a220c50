-- ===== src/UrlLoader/Sending/Trimmed.antt =====
-- The trimming of src/ppb_url_loader.c, from the front of a string instead of from its end.
use freshplayerplugin.Base.{
  ℕ, ◌≡◌, refl, sym, ap, ◌∙◌, Bool, true, false, ◌&&◌, ◌||◌, [], ◌∷◌, ◌++◌, reverse, ◌==◌,
  if◌then◌else◌, Bytes, Bool-cases, inl, inr,
}
use mathlib.Core.List.{reverse-append, reverse-cons}
use freshplayerplugin.UrlLoader.Sending.{is_newline, skip_newlines, trim_nl}

abbrev is_empty : Bytes → Bool
is_empty [] = true
is_empty (c ∷ s) = false

-- A byte with what is kept behind it: a line feed or a carriage return with nothing behind it goes.
abbrev pub kept_before : ℕ → Bytes → Bytes
kept_before c rest = if (c == 10 || c == 13) && is_empty rest then [] else c ∷ rest

-- A string without the line ends at its end.
unfoldable pub without_line_ends : Bytes → Bytes
without_line_ends [] = []
without_line_ends (c ∷ s) = kept_before c (without_line_ends s)

is_empty-append : (s : Bytes) (c : ℕ) → is_empty (s ++ (c ∷ [])) ≡ false
is_empty-append [] c = refl
is_empty-append (x ∷ s) c = refl

kept_before-more :
    (c x : ℕ) (s : Bytes) → kept_before c (reverse (x ∷ s)) ≡ reverse ((x ∷ s) ++ (c ∷ []))
kept_before-more c x s =
    let full : is_empty (reverse (x ∷ s)) ≡ false =
      ap is_empty (reverse-cons x s) ∙ is_empty-append (reverse s) x in
    (elim (Bool-cases (c == 10 || c == 13)) [ inl y ↦ rw (y, full) refl | inr n ↦ rw n refl ])
    ∙ sym (reverse-append (x ∷ s) (c ∷ []))

skip_newlines-last :
    (s : Bytes) (c : ℕ)
    → reverse (skip_newlines (s ++ (c ∷ []))) ≡ kept_before c (reverse (skip_newlines s))
unfolding skip_newlines
skip_newlines-last [] c = elim (Bool-cases (is_newline c)) [ inl y ↦ rw y refl | inr n ↦ rw n refl ]
skip_newlines-last (x ∷ s) c = elim (Bool-cases (is_newline x)) [
  | inl y ↦ rw y (skip_newlines-last s c)
  | inr n ↦ rw n (sym (kept_before-more c x s))
]

pub trim_nl-without_line_ends : (s : Bytes) → trim_nl s ≡ without_line_ends s
unfolding trim_nl skip_newlines without_line_ends
trim_nl-without_line_ends [] = refl
trim_nl-without_line_ends (c ∷ s) =
    ap (λ x. reverse (skip_newlines x)) (reverse-cons c s)
    ∙ skip_newlines-last (reverse s) c
    ∙ ap (kept_before c) (trim_nl-without_line_ends s)
