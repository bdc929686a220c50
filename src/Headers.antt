-- ===== src/Headers.antt =====
-- src/header_parser.c: the headers of an HTTP response. Byte strings are lists of bytes; the pieces
-- that `strtok_r` cuts off one after another are a list.
pub mod Print
pub mod Lookup
use freshplayerplugin.Base.{
  ℕ, zero, suc, ◌+◌, ◌-◌, ◌*◌, Bool, true, false, not, ◌&&◌, ◌||◌, Option, none, some, List, [],
  ◌∷◌, ◌==◌, leb, ltb, if◌then◌else◌, ℤ, pos, negsuc, Bytes, codes, equal, ◌>>=◌,
}

-- `struct parsed_headers_s`
pub record ParsedHeaders : Type 0 where
  pub http_code : ℤ
  pub cnt : ℕ
  pub name : List Bytes
  pub value : List Bytes
  pub status_line : Option Bytes

-- the delimiters "\r\n"
abbrev pub is_delimiter : ℕ → Bool
is_delimiter c = c == 13 || c == 10

-- a piece, unless it is empty
unfoldable pub piece : Bytes → List Bytes → List Bytes
piece [] ps = ps
piece (c ∷ p) ps = (c ∷ p) ∷ ps

-- The bytes before the first delimiter, and the pieces behind it.
unfoldable pub cut : Bytes → Bytes × List Bytes
unfolding piece
cut [] = ([], [])
cut (c ∷ s) =
    let rest = cut s in if is_delimiter c then ([], piece rest.0 rest.1) else (c ∷ rest.0, rest.1)

-- what the calls of `strtok_r` return until NULL
unfoldable pub parts : Bytes → List Bytes
unfolding cut
parts s = piece (cut s).0 (cut s).1

-- `isspace`
abbrev pub is_space : ℕ → Bool
is_space c = c == 32 || leb 9 c && leb c 13

unfoldable pub skip_spaces : Bytes → Bytes
skip_spaces [] = []
skip_spaces (c ∷ s) = let rest = skip_spaces s in if is_space c then rest else c ∷ s

abbrev pub is_digit : ℕ → Bool
is_digit c = leb b'0' c && leb c b'9'

-- at most so many digits, after the value of those before them
unfoldable pub more_digits : ℕ → ℕ → Bytes → ℕ × Bytes
more_digits zero n s = (n, s)
more_digits (suc width) n [] = (n, [])
more_digits (suc width) n (c ∷ s) =
    let rest = more_digits width (n * 10 + (c - b'0')) s in if is_digit c then rest else (n, c ∷ s)

unfoldable pub digits : ℕ → Bytes → Option (ℕ × Bytes)
unfolding more_digits
digits width [] = none
digits width (c ∷ s) = if is_digit c then some (more_digits width 0 (c ∷ s)) else none

unfoldable pub negative : ℕ → ℤ
negative zero = pos 0
negative (suc n) = negsuc n

-- "%6d" of `sscanf`; a sign is one of the six
unfoldable pub signed : Bytes → Option (ℤ × Bytes)
unfolding digits negative
signed [] = none
signed (c ∷ s) =
    if c == b'-'
    then (do (n, rest) ← digits 5 s; some (negative n, rest))
    else if c == b'+'
    then (do (n, rest) ← digits 5 s; some (pos n, rest))
    else do (n, rest) ← digits 6 (c ∷ s); some (pos n, rest)

abbrev pub number : Bytes → Option (ℤ × Bytes)
number s = signed (skip_spaces s)

-- literal bytes of a format
unfoldable pub literal : Bytes → Bytes → Option Bytes
literal [] s = some s
literal (c ∷ cs) [] = none
literal (c ∷ cs) (d ∷ s) = let rest = literal cs s in if c == d then rest else none

-- `sscanf(part, "HTTP/%6d.%6d %6d", …) >= 3`, with the third number
unfoldable pub status_code : Bytes → Option ℤ
unfolding signed literal skip_spaces
status_code part = do
  after_slash ← literal (codes "HTTP/") part
  (major, after_major) ← number after_slash
  after_dot ← literal (codes ".") after_major
  (minor, after_minor) ← number after_dot
  (code, after_code) ← number after_minor
  some code

-- the bytes before the first colon, and those behind it
unfoldable pub at_colon : Bytes → Option (Bytes × Bytes)
at_colon [] = none
at_colon (c ∷ s) =
    let later : Option (Bytes × Bytes) = (do (name, value) ← at_colon s; some (c ∷ name, value)) in
    if c == b':' then some ([], s) else later

unfoldable pub split_found : Bytes → Option (Bytes × Bytes) → Bytes × Bytes
unfolding skip_spaces
split_found part none = (part, [])
split_found part (some (name, value)) = (name, skip_spaces value)

abbrev pub split : Bytes → Bytes × Bytes
split part = split_found part (at_colon part)

-- `while (part) ph->cnt ++`
unfoldable pub count : List Bytes → ℕ → ℕ
count [] cnt = cnt
count (part ∷ ps) cnt = count ps (cnt + 1)

-- `while (part && k < ph->cnt)`: the entries of the two arrays from `k` on
unfoldable pub save : ℕ → ℕ → List Bytes → List (Bytes × Bytes)
unfolding split_found at_colon
save cnt k [] = []
save cnt k (part ∷ ps) =
    let rest = save cnt (k + 1) ps in if ltb k cnt then split part ∷ rest else []

unfoldable pub names : List (Bytes × Bytes) → List Bytes
names [] = []
names ((name, value) ∷ hs) = name ∷ names hs

unfoldable pub values : List (Bytes × Bytes) → List Bytes
values [] = []
values ((name, value) ∷ hs) = value ∷ values hs

unfoldable pub code_or : ℤ → Option ℤ → ℤ
code_or d none = d
code_or d (some code) = code

unfoldable pub parse_parts : List Bytes → ParsedHeaders
unfolding count save names values code_or status_code
parse_parts [] = record { http_code = pos 200; cnt = 0; name = []; value = []; status_line = none }
parse_parts (part ∷ ps) =
    let cnt = count ps 0 in
    let saved = save cnt 0 ps in
    record {
      http_code = code_or (pos 200) (status_code part);
      cnt = cnt;
      name = names saved;
      value = values saved;
      status_line = some part;
    }

unfoldable pub hp_parse_headers : Option Bytes → ParsedHeaders
unfolding parse_parts parts
hp_parse_headers none = record {
  http_code = pos 0;
  cnt = 0;
  name = [];
  value = [];
  status_line = none;
}
hp_parse_headers (some headers) = parse_parts (parts headers)

abbrev pub lower : ℕ → ℕ
lower c = if leb b'A' c && leb c b'Z' then c + 32 else c

-- `strcasecmp(a, b) == 0`
unfoldable pub same_name : Bytes → Bytes → Bool
same_name [] [] = true
same_name (x ∷ xs) (y ∷ ys) = lower x == lower y && same_name xs ys
same_name _ _ = false

-- The loop over the first `cnt` entries; an entry that is not there would be read out of bounds.
unfoldable pub find_value : ℕ → Bytes → List Bytes → List Bytes → Option Bytes
unfolding same_name
find_value zero name ns vs = none
find_value (suc cnt) name (n ∷ ns) (v ∷ vs) =
    let later = find_value cnt name ns vs in if same_name n name then some v else later
find_value (suc cnt) name _ _ = none

unfoldable pub hp_get_header_value : ParsedHeaders → Bytes → Option Bytes
unfolding find_value
hp_get_header_value ph name = find_value ph.cnt name ph.name ph.value

unfoldable pub find_name : ℕ → Bytes → List Bytes → Bool
unfolding same_name
find_name zero name ns = false
find_name (suc cnt) name (n ∷ ns) =
    let later = find_name cnt name ns in if same_name n name then true else later
find_name (suc cnt) name [] = false

unfoldable pub hp_header_exists : ParsedHeaders → Bytes → Bool
unfolding find_name
hp_header_exists ph name = find_name ph.cnt name ph.name
