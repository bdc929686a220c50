-- ===== src/Tests/Text.antt =====
-- Texts through src/header_parser.c and src/encoding_alias.c.
use freshplayerplugin.Base.{◌≡◌, refl, true, some, List, [], ◌∷◌, Bytes, codes, equal}
use freshplayerplugin.Headers.{
  names, values, hp_parse_headers, hp_get_header_value, hp_header_exists, parts,
}
use freshplayerplugin.Headers.Print.{print, hp_parse_headers-print, is_line, are_headers}
use freshplayerplugin.Headers.Lookup.{hp_get_header_value-first, first_value, headers_of, is_some}
use freshplayerplugin.EncodingAlias.{char_type, strip_from, encoding_alias_get_canonical_name}
use freshplayerplugin.EncodingAlias.Stripping.{upper_name, essence}
use freshplayerplugin.EncodingAlias.Names.{encoding_alias_get_canonical_name-last_entry, last_entry}

abbrev fields : List (Bytes × Bytes)
fields = (codes "Content-Length", codes "12") ∷ (codes "X", []) ∷ []

status-is_line : is_line (codes "HTTP/1.1 404 Not Found") ≡ true
unfolding is_line
status-is_line = refl

fields-are_headers : are_headers fields ≡ true
unfolding are_headers
fields-are_headers = refl

hp_parse_headers-print_example :
    let ph = hp_parse_headers (some (print (codes "HTTP/1.1 404 Not Found") fields)) in
    (ph.status_line ≡ some (codes "HTTP/1.1 404 Not Found"))
    × (ph.cnt ≡ 2)
    × (ph.name ≡ codes "Content-Length" ∷ codes "X" ∷ [])
    × (ph.value ≡ codes "12" ∷ [] ∷ [])
unfolding names values
hp_parse_headers-print_example =
    hp_parse_headers-print (codes "HTTP/1.1 404 Not Found") fields status-is_line fields-are_headers

abbrev response : Bytes
response = print (codes "HTTP/1.1 404 Not Found") fields

hp_get_header_value-first_example :
    let ph = hp_parse_headers (some response) in
    (hp_get_header_value ph (codes "content-length")
      ≡ first_value (codes "content-length") (headers_of (parts response)))
    × (hp_header_exists ph (codes "content-length")
        ≡ is_some (hp_get_header_value ph (codes "content-length")))
hp_get_header_value-first_example = hp_get_header_value-first response (codes "content-length")

abbrev aliases : List (Bytes × Bytes)
aliases = (codes "UTF-8", codes "utf8") ∷ (codes "ISO-8859-1", codes "latin1") ∷ []

encoding_alias_get_canonical_name-last_entry_example :
    (encoding_alias_get_canonical_name aliases (codes "Latin-1") ≡ codes "ISO-8859-1")
    × (encoding_alias_get_canonical_name aliases (codes "LATIN-1") ≡ codes "ISO-8859-1")
unfolding essence last_entry strip_from char_type upper_name equal
encoding_alias_get_canonical_name-last_entry_example =
    encoding_alias_get_canonical_name-last_entry aliases (codes "Latin-1")
