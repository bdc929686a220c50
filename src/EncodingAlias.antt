-- ===== src/EncodingAlias.antt =====
-- src/encoding_alias.c: the canonical name of a character encoding. The table of aliases is built
-- from src/encoding_alias_list.inc.c, which is an argument here: pairs of a canonical name and an
-- alias.
pub mod Stripping
pub mod Names
use freshplayerplugin.Base.{
  ℕ, ◌+◌, ◌-◌, Bool, true, false, not, ◌&&◌, ◌||◌, Option, none, some, List, [], ◌∷◌, ◌==◌, leb,
  if◌then◌else◌, Bytes, equal,
}

-- the entries of `char_types` by ranges
unfoldable pub char_type : ℕ → ℕ
char_type c =
    if c == b'0'
    then 1
    else if leb b'1' c && leb c b'9'
    then 2
    else if leb b'A' c && leb c b'Z'
    then c + 32
    else if leb b'a' c && leb c b'z'
    then c
    else 0

-- `char_types[(uint8_t)(*name)]`, at the end too
unfoldable pub next_type : Bytes → ℕ
unfolding char_type
next_type [] = 0
next_type (c ∷ name) = char_type c

abbrev pub is_digit_type : ℕ → Bool
is_digit_type type = type == 1 || type == 2

-- One byte of the loop with what the rest gives: with `after_digit` as it is, set, and reset.
unfoldable pub strip_byte : Bool → ℕ → ℕ → ℕ → Bytes → Bytes → Bytes → Bytes
strip_byte after_digit type following c as_is digit_behind none_behind =
    if type == 0
    then none_behind
    else if type == 1
    then (if not after_digit && is_digit_type following then as_is else c ∷ as_is)
    else if type == 2
    then c ∷ digit_behind
    else type ∷ none_behind

-- The loop, with its variable `after_digit`.
unfoldable pub strip_from : Bool → Bytes → Bytes
unfolding next_type strip_byte
strip_from after_digit [] = []
strip_from after_digit (c ∷ name) =
    strip_byte after_digit (char_type c) (next_type name) c (strip_from after_digit name)
      (strip_from true name) (strip_from false name)

unfoldable pub strip_enc_name : Option Bytes → Option Bytes
unfolding strip_from
strip_enc_name none = none
strip_enc_name (some name) = some (strip_from false name)

-- The table: each alias is inserted by its stripped name, over an entry that is there.
unfoldable pub fill : List (Bytes × Bytes) → (Bytes → Option Bytes) → Bytes → Option Bytes
unfolding strip_from
fill [] ht = ht
fill ((dst, src) ∷ encs) ht =
    fill encs (λ key. if equal (strip_from false src) key then some dst else ht key)

unfoldable pub or_name : Bytes → Option Bytes → Bytes
or_name name none = name
or_name name (some res) = res

unfoldable pub encoding_alias_get_canonical_name : List (Bytes × Bytes) → Bytes → Bytes
unfolding fill or_name
encoding_alias_get_canonical_name encs name =
    or_name name (fill encs (λ key. none) (strip_from false name))
