-- ===== src/EncodingAlias/Names.antt =====
-- Which names src/encoding_alias.c takes for the same.
use freshplayerplugin.Base.{
  ◌≡◌, refl, ◌∙◌, Bool, true, false, Option, none, some, List, [], ◌∷◌, if◌then◌else◌, Bytes, equal,
}
use freshplayerplugin.EncodingAlias.{strip_from, fill, or_name, encoding_alias_get_canonical_name}
use freshplayerplugin.EncodingAlias.Stripping.{
  upper_name, essence, strip_from-upper, strip_from-all_of,
}

unfoldable or_else : Option Bytes → Option Bytes → Option Bytes
or_else none y = y
or_else (some x) y = some x

-- The canonical name in the last entry of the table whose alias is stripped to the key.
unfoldable pub last_entry : List (Bytes × Bytes) → Bytes → Option Bytes
unfolding or_else
last_entry [] key = none
last_entry ((dst, src) ∷ encs) key =
    or_else (last_entry encs key) (if equal (essence [] src) key then some dst else none)

or_else_assoc :
    (x : Option Bytes) (b : Bool) (d : Bytes) (y : Option Bytes)
    → or_else x (if b then some d else y) ≡ or_else (or_else x (if b then some d else none)) y
unfolding or_else
or_else_assoc none true d y = refl
or_else_assoc none false d y = refl
or_else_assoc (some x) b d y = refl

fill-last_entry :
    (encs : List (Bytes × Bytes)) (ht : Bytes → Option Bytes) (key : Bytes)
    → fill encs ht key ≡ or_else (last_entry encs key) (ht key)
unfolding fill or_else last_entry
fill-last_entry [] ht key = refl
fill-last_entry ((dst, src) ∷ encs) ht key = rw (strip_from-all_of src) (
    fill-last_entry encs (λ k. if equal (essence [] src) k then some dst else ht k) key
    ∙ or_else_assoc (last_entry encs key) (equal (essence [] src) key) dst (ht key))

or_name-is :
    (name : Bytes) (entry : Option Bytes)
    → or_name name entry ≡ elim entry [ none ↦ name | some res ↦ res ]
unfolding or_name
or_name-is name none = refl
or_name-is name (some res) = refl

or_else-none : (x : Option Bytes) → or_else x none ≡ x
unfolding or_else
or_else-none none = refl
or_else-none (some x) = refl

-- What counts of a name are its letters, whatever their case, and its digits, without the zeros
-- that only pad a number. The canonical name of a name is the one in the last entry of the table
-- whose alias has the same; a name with other letter case finds that entry too; and a name without
-- such an alias is its own canonical name.
pub encoding_alias_get_canonical_name-last_entry :
    (encs : List (Bytes × Bytes)) (name : Bytes)
    → let entry = last_entry encs (essence [] name) in
      (encoding_alias_get_canonical_name encs name ≡ elim entry [ none ↦ name | some res ↦ res ])
      × (encoding_alias_get_canonical_name encs (upper_name name)
          ≡ elim entry [ none ↦ upper_name name | some res ↦ res ])
unfolding encoding_alias_get_canonical_name
encoding_alias_get_canonical_name-last_entry encs name =
    let found : fill encs (λ key. none) (strip_from false name)
        ≡ last_entry encs (essence [] name) =
      rw (strip_from-all_of name) (
        fill-last_entry encs (λ key. none) (essence [] name)
        ∙ or_else-none (last_entry encs (essence [] name))) in
    (
      rw found (or_name-is name (last_entry encs (essence [] name))),
      rw (strip_from-upper false name, found)
          (or_name-is (upper_name name) (last_entry encs (essence [] name))),
    )
