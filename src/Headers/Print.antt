-- ===== src/Headers/Print.antt =====
-- Headers in the form in which src/header_parser.c reads them, and what it reads from it.
use freshplayerplugin.Base.{
  ℕ, suc, ◌+◌, ◌≡◌, refl, ap, ◌∙◌, Bool, true, false, not, ◌&&◌, ◌||◌, some, List, [], ◌∷◌, ◌++◌,
  ◌==◌, Bytes, length, arith, ◌≤◌,
}
use freshplayerplugin.Headers.Lookup.{count-length}
use freshplayerplugin.Headers.{
  ParsedHeaders, is_delimiter, piece, cut, parts, is_space, skip_spaces, at_colon, split_found,
  split, count, save, names, values, parse_parts, hp_parse_headers,
}

-- A line: at least one byte, and no end of line.
unfoldable pub is_text : Bytes → Bool
is_text [] = true
is_text (c ∷ s) = not (is_delimiter c) && is_text s

unfoldable pub is_line : Bytes → Bool
unfolding is_text
is_line [] = false
is_line (c ∷ s) = is_text (c ∷ s)

unfoldable pub has_colon : Bytes → Bool
has_colon [] = false
has_colon (c ∷ s) = c == b':' || has_colon s

unfoldable pub starts_with_space : Bytes → Bool
starts_with_space [] = false
starts_with_space (c ∷ s) = is_space c

-- A header that is written and read back the same.
abbrev pub is_header : Bytes × Bytes → Bool
is_header h = is_text h.0 && not (has_colon h.0) && (is_text h.1 && not (starts_with_space h.1))

unfoldable pub are_headers : List (Bytes × Bytes) → Bool
unfolding is_text has_colon starts_with_space
are_headers [] = true
are_headers (h ∷ hs) = is_header h && are_headers hs

-- "name: value"
abbrev pub header_line : Bytes × Bytes → Bytes
header_line h = h.0 ++ b':' ∷ 32 ∷ h.1

unfoldable pub print_headers : List (Bytes × Bytes) → Bytes
print_headers [] = []
print_headers (h ∷ hs) = header_line h ++ 13 ∷ 10 ∷ print_headers hs

abbrev pub print : Bytes → List (Bytes × Bytes) → Bytes
print status hs = status ++ 13 ∷ 10 ∷ print_headers hs

unfoldable pub header_lines : List (Bytes × Bytes) → List Bytes
header_lines [] = []
header_lines (h ∷ hs) = header_line h ∷ header_lines hs

cut-text : (t s : Bytes) → is_text t ≡ true → cut (t ++ 13 ∷ 10 ∷ s) ≡ (t, parts s)
unfolding cut parts is_text
cut-text [] s e = ground (arith, piece)
cut-text (c ∷ t) s e = ground (arith, cut-text t s)

parts-line : (t s : Bytes) → is_line t ≡ true → parts (t ++ 13 ∷ 10 ∷ s) ≡ t ∷ parts s
unfolding is_line parts piece
parts-line [] s e = ground arith
parts-line (c ∷ t) s e =
    ap {B = List Bytes} (λ (x : Bytes × List Bytes). piece x.0 x.1) (cut-text (c ∷ t) s e)

is_text-append : (a b : Bytes) → is_text a ≡ true → is_text b ≡ true → is_text (a ++ b) ≡ true
unfolding is_text
is_text-append [] b ea eb = eb
is_text-append (c ∷ a) b ea eb = ground (arith, is_text-append a b)

pub header_line-is_line : (h : Bytes × Bytes) → is_header h ≡ true → is_line (header_line h) ≡ true
unfolding is_line
header_line-is_line ([], v) e = ground (arith, is_text)
header_line-is_line (c ∷ n, v) e =
    is_text-append (c ∷ n) (b':' ∷ 32 ∷ v) (ground arith) (ground (arith, is_text))

pub parts-nil : parts [] ≡ []
unfolding parts piece
parts-nil = refl

parts-print_headers :
    (hs : List (Bytes × Bytes)) → are_headers hs ≡ true → parts (print_headers hs) ≡ header_lines hs
unfolding are_headers header_lines print_headers
parts-print_headers [] e = parts-nil
parts-print_headers (h ∷ hs) e =
    parts-line (header_line h) (print_headers hs) (header_line-is_line h (ground arith))
    ∙ ap (λ ps. header_line h ∷ ps) (parts-print_headers hs (ground arith))

at_colon-header : (n v : Bytes) → has_colon n ≡ false → at_colon (n ++ b':' ∷ v) ≡ some (n, v)
unfolding at_colon has_colon
at_colon-header [] v e = refl
at_colon-header (c ∷ n) v e = ground (arith, at_colon-header n v)

skip_spaces-kept : (v : Bytes) → starts_with_space v ≡ false → skip_spaces v ≡ v
unfolding skip_spaces starts_with_space
skip_spaces-kept [] e = refl
skip_spaces-kept (c ∷ v) e = ground arith

split-header : (h : Bytes × Bytes) → is_header h ≡ true → split (header_line h) ≡ h
unfolding split_found
split-header (n, v) e =
    rw (at_colon-header n (32 ∷ v) (ground arith))
      (ap (λ w. (n, w)) (skip_spaces-kept v (ground arith)))

save-header_lines :
    (cnt k : ℕ) (hs : List (Bytes × Bytes))
    → are_headers hs ≡ true
    → k + length hs ≤ cnt
    → save cnt k (header_lines hs) ≡ hs
unfolding save header_lines are_headers
save-header_lines cnt k [] e h = refl
save-header_lines cnt k (x ∷ hs) e h =
    ground (arith, split-header x, save-header_lines cnt (k + 1) hs)

length-header_lines : (hs : List (Bytes × Bytes)) → length (header_lines hs) ≡ length hs
unfolding header_lines
length-header_lines [] = refl
length-header_lines (h ∷ hs) = ap suc (length-header_lines hs)

count-header_lines : (hs : List (Bytes × Bytes)) → count (header_lines hs) 0 ≡ length hs
count-header_lines hs = omega (arith, count-length (header_lines hs) 0, length-header_lines hs)

save-count :
    (hs : List (Bytes × Bytes))
    → are_headers hs ≡ true
    → save (count (header_lines hs) 0) 0 (header_lines hs) ≡ hs
save-count hs e =
    save-header_lines (count (header_lines hs) 0) 0 hs e (omega (arith, count-header_lines hs))

-- What is read from a printed response.
abbrev pub Reads : Bytes → List (Bytes × Bytes) → ParsedHeaders → Type 0
Reads status hs ph =
    (ph.status_line ≡ some status)
    × (ph.cnt ≡ length hs)
    × (ph.name ≡ names hs)
    × (ph.value ≡ values hs)

pub parse_parts-header_lines :
    (status : Bytes) (hs : List (Bytes × Bytes))
    → are_headers hs ≡ true
    → Reads status hs (parse_parts (status ∷ header_lines hs))
unfolding parse_parts
parse_parts-header_lines status hs e =
    (refl, count-header_lines hs, ap names (save-count hs e), ap values (save-count hs e))

parts-print :
    (status : Bytes) (hs : List (Bytes × Bytes))
    → is_line status ≡ true
    → are_headers hs ≡ true
    → parts (print status hs) ≡ status ∷ header_lines hs
parts-print status hs l e =
    parts-line status (print_headers hs) l ∙ ap (λ ps. status ∷ ps) (parts-print_headers hs e)

-- Parsing a status line and headers, each on a line, gives them back: the status line is kept, and
-- the names and the values are those printed, in their order. The status line is not empty, and no
-- name or value contains an end of line; a name has no colon, and a value does not start with white
-- space.
pub hp_parse_headers-print :
    (status : Bytes) (hs : List (Bytes × Bytes))
    → is_line status ≡ true
    → are_headers hs ≡ true
    → let ph = hp_parse_headers (some (print status hs)) in
      (ph.status_line ≡ some status)
      × (ph.cnt ≡ length hs)
      × (ph.name ≡ names hs)
      × (ph.value ≡ values hs)
unfolding hp_parse_headers
hp_parse_headers-print status hs l e =
    rw (parts-print status hs l e) (parse_parts-header_lines status hs e)
