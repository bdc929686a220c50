-- ===== src/Headers/Lookup.antt =====
-- Looking up a header of src/header_parser.c.
use freshplayerplugin.Base.{
  ℕ, suc, ◌+◌, ◌≡◌, refl, ap, sym, ◌∙◌, Bool, true, false, Option, none, some, List, [], ◌∷◌,
  if◌then◌else◌, Bytes, length, arith, ◌≤◌,
}
use freshplayerplugin.Headers.{
  parts, count, save, names, values, split, parse_parts, hp_parse_headers, find_value,
  hp_get_header_value, find_name, hp_header_exists, same_name,
}

-- The header lines of a response as names and values: all lines but the first.
unfoldable pub lines : List Bytes → List (Bytes × Bytes)
lines [] = []
lines (part ∷ ps) = split part ∷ lines ps

unfoldable pub headers_of : List Bytes → List (Bytes × Bytes)
unfolding lines
headers_of [] = []
headers_of (status ∷ ps) = lines ps

-- The value of the first header of a name, whatever its letter case.
unfoldable pub first_value : Bytes → List (Bytes × Bytes) → Option Bytes
first_value name [] = none
first_value name ((n, v) ∷ hs) =
    let later = first_value name hs in if same_name n name then some v else later

abbrev pub is_some : Option Bytes → Bool
is_some none = false
is_some (some v) = true

pub count-length : (ps : List Bytes) (n : ℕ) → count ps n ≡ n + length ps
unfolding count
count-length [] n = omega arith
count-length (p ∷ ps) n = omega (arith, count-length ps (n + 1))

save-lines : (cnt k : ℕ) (ps : List Bytes) → k + length ps ≤ cnt → save cnt k ps ≡ lines ps
unfolding save lines
save-lines cnt k [] h = refl
save-lines cnt k (p ∷ ps) h = ground (arith, save-lines cnt (k + 1) ps)

length-lines : (ps : List Bytes) → length (lines ps) ≡ length ps
unfolding lines
length-lines [] = refl
length-lines (p ∷ ps) = ap suc (length-lines ps)

find_value-first_value :
    (name : Bytes) (hs : List (Bytes × Bytes))
    → find_value (length hs) name (names hs) (values hs) ≡ first_value name hs
unfolding find_value names values first_value
find_value-first_value name [] = refl
find_value-first_value name ((n, v) ∷ hs) =
    ap (λ later. if same_name n name then some v else later) (find_value-first_value name hs)

find_name-first_value :
    (name : Bytes) (hs : List (Bytes × Bytes))
    → find_name (length hs) name (names hs) ≡ is_some (first_value name hs)
unfolding find_name names first_value
find_name-first_value name [] = refl
find_name-first_value name ((n, v) ∷ hs) = ground (arith, find_name-first_value name hs)

parse_parts-cnt : (ps : List Bytes) → (parse_parts ps).cnt ≡ length (headers_of ps)
unfolding parse_parts headers_of
parse_parts-cnt [] = refl
parse_parts-cnt (status ∷ ps) = omega (arith, count-length ps 0, length-lines ps)

parse_parts-name : (ps : List Bytes) → (parse_parts ps).name ≡ names (headers_of ps)
unfolding parse_parts headers_of names
parse_parts-name [] = refl
parse_parts-name (status ∷ ps) =
    ap names (save-lines (count ps 0) 0 ps (omega (arith, count-length ps 0)))

parse_parts-value : (ps : List Bytes) → (parse_parts ps).value ≡ values (headers_of ps)
unfolding parse_parts headers_of values
parse_parts-value [] = refl
parse_parts-value (status ∷ ps) =
    ap values (save-lines (count ps 0) 0 ps (omega (arith, count-length ps 0)))

-- In the headers parsed from any text, the value of a header is that of the first line behind the
-- status line whose name is the same up to letter case, and NULL if there is none; and a header
-- exists exactly if it has a value.
pub hp_get_header_value-first :
    (text name : Bytes)
    → let ph = hp_parse_headers (some text) in
      (hp_get_header_value ph name ≡ first_value name (headers_of (parts text)))
      × (hp_header_exists ph name ≡ is_some (hp_get_header_value ph name))
unfolding hp_parse_headers hp_get_header_value hp_header_exists
hp_get_header_value-first text name =
    let ps = parts text in
    rw (parse_parts-cnt ps, parse_parts-name ps, parse_parts-value ps)
      (
        find_value-first_value name (headers_of ps),
        find_name-first_value name (headers_of ps)
            ∙ ap is_some (sym (find_value-first_value name (headers_of ps))),
      )
