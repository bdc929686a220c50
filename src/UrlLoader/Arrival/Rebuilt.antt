-- ===== src/UrlLoader/Arrival/Rebuilt.antt =====
-- The headers that NPP_NewStream of src/np_functions.c puts together again from those that
-- src/header_parser.c has taken apart.
use freshplayerplugin.Base.{
  ℕ, zero, suc, ◌≤◌, ◌≡◌, refl, sym, ap, ◌∙◌, Bool, true, false, some, List, [], ◌∷◌, ◌++◌, Bytes,
  length, length-append, arith,
}
use mathlib.Core.Path.{subst}
use mathlib.Core.List.{append-nil, append_assoc}
use freshplayerplugin.Headers.{ParsedHeaders, piece, cut, parts, names, values, hp_parse_headers}
use freshplayerplugin.Headers.Print.{
  is_text, is_line, are_headers, header_line, header_lines, header_line-is_line, print, parts-nil,
  hp_parse_headers-print, Reads, parse_parts-header_lines,
}
use freshplayerplugin.UrlLoader.Arrival.{NpStream, write_headers, headers_len, filled}
use freshplayerplugin.UrlLoader.{UrlLoader}

cut-last : (t : Bytes) → is_text t ≡ true → cut t ≡ (t, [])
unfolding cut is_text
cut-last [] e = refl
cut-last (c ∷ t) e = ground (arith, cut-last t)

parts-last : (t : Bytes) → is_line t ≡ true → parts t ≡ t ∷ []
unfolding is_line parts piece
parts-last [] e = ground arith
parts-last (c ∷ t) e =
    ap {B = List Bytes} (λ (x : Bytes × List Bytes). piece x.0 x.1) (cut-last (c ∷ t) e)

cut-newline : (t s : Bytes) → is_text t ≡ true → cut (t ++ 10 ∷ s) ≡ (t, parts s)
unfolding cut parts is_text
cut-newline [] s e = ground (arith, piece)
cut-newline (c ∷ t) s e = ground (arith, cut-newline t s)

parts-newline : (t s : Bytes) → is_line t ≡ true → parts (t ++ 10 ∷ s) ≡ t ∷ parts s
unfolding is_line parts piece
parts-newline [] s e = ground arith
parts-newline (c ∷ t) s e =
    ap {B = List Bytes} (λ (x : Bytes × List Bytes). piece x.0 x.1) (cut-newline (c ∷ t) s e)

-- The headers from an index on.
abbrev pub rebuilt : Bool → List (Bytes × Bytes) → Bytes
rebuilt first hs = write_headers (length hs) first (names hs) (values hs)

rebuilt-cons :
    (h : Bytes × Bytes) (hs : List (Bytes × Bytes))
    → rebuilt true (h ∷ hs) ≡ header_line h ++ rebuilt false hs
unfolding write_headers names values
rebuilt-cons (n, v) hs = sym (append_assoc n (b':' ∷ 32 ∷ v) (rebuilt false hs))

rebuilt-later :
    (h : Bytes × Bytes) (hs : List (Bytes × Bytes))
    → rebuilt false (h ∷ hs) ≡ 10 ∷ (header_line h ++ rebuilt false hs)
unfolding write_headers names values
rebuilt-later (n, v) hs = ap (λ x. 10 ∷ x) (sym (append_assoc n (b':' ∷ 32 ∷ v) (rebuilt false hs)))

parts-rebuilt :
    (hs : List (Bytes × Bytes)) (t : Bytes)
    → is_line t ≡ true
    → are_headers hs ≡ true
    → parts (t ++ rebuilt false hs) ≡ t ∷ header_lines hs
unfolding are_headers header_lines write_headers
parts-rebuilt [] t e k = ap parts (append-nil t) ∙ parts-last t e
parts-rebuilt (h ∷ hs) t e k =
    ap (λ x. parts (t ++ x)) (rebuilt-later h hs)
    ∙ parts-newline t (header_line h ++ rebuilt false hs) e
    ∙ ap (λ x. t ∷ x)
        (parts-rebuilt hs (header_line h) (header_line-is_line h (ground arith)) (ground arith))

parts-status :
    (status : Bytes) (hs : List (Bytes × Bytes))
    → is_line status ≡ true
    → are_headers hs ≡ true
    → parts (status ++ 10 ∷ rebuilt true hs) ≡ status ∷ header_lines hs
unfolding are_headers header_lines write_headers
parts-status status [] e k = parts-newline status [] e ∙ ap (λ x. status ∷ x) parts-nil
parts-status status (h ∷ hs) e k =
    parts-newline status (rebuilt true (h ∷ hs)) e
    ∙ ap (λ x. status ∷ x)
        (ap parts (rebuilt-cons h hs)
          ∙ parts-rebuilt hs (header_line h) (header_line-is_line h (ground arith)) (ground arith))

-- The loop writes no byte behind the memory that was counted before.
rebuilt-length :
    (n : ℕ) (first : Bool) (ns vs : List Bytes)
    → length (write_headers n first ns vs) ≤ headers_len n ns vs
unfolding write_headers headers_len
rebuilt-length zero first ns vs = omega arith
rebuilt-length (suc n) first [] vs = omega arith
rebuilt-length (suc n) first (x ∷ ns) [] = omega arith
rebuilt-length (suc n) true (x ∷ ns) (v ∷ vs) = omega (
  arith,
  length-append x (b':' ∷ 32 ∷ (v ++ write_headers n false ns vs)),
  length-append v (write_headers n false ns vs),
  rebuilt-length n false ns vs,
)
rebuilt-length (suc n) false (x ∷ ns) (v ∷ vs) = omega (
  arith,
  length-append x (b':' ∷ 32 ∷ (v ++ write_headers n false ns vs)),
  length-append v (write_headers n false ns vs),
  rebuilt-length n false ns vs,
)

Reads-rebuilt :
    (status : Bytes) (hs : List (Bytes × Bytes))
    → is_line status ≡ true
    → are_headers hs ≡ true
    → Reads status hs (hp_parse_headers (some (status ++ 10 ∷ rebuilt true hs)))
unfolding hp_parse_headers
Reads-rebuilt status hs e k = rw (parts-status status hs e k) (parse_parts-header_lines status hs k)

-- The headers that NPP_NewStream keeps of a response fit in the memory that it has counted for
-- them; and with the status line before them, as a plugin reads them, they are parsed to the same
-- status line and the same headers as the response, in their order. The response is a status line
-- with headers, each on a line: the status line is not empty, no name or value contains an end of
-- line, a name has no colon, and a value does not start with white space.
pub filled-headers :
    (s : NpStream) (l : UrlLoader) (status : Bytes) (hs : List (Bytes × Bytes))
    → is_line status ≡ true
    → are_headers hs ≡ true
    → let ph : ParsedHeaders = hp_parse_headers (some (print status hs)) in
      let l' : UrlLoader = filled s ph l in
      (text : Bytes) × (l'.headers ≡ some text)
      × (l'.status_line ≡ some status)
      × (length text ≤ headers_len ph.cnt ph.name ph.value)
      × Reads status hs (hp_parse_headers (some (status ++ 10 ∷ text)))
unfolding filled
filled-headers s l status hs e k =
    let ph : ParsedHeaders = hp_parse_headers (some (print status hs)) in
    let (status_line, cnt, ns, vs) = hp_parse_headers-print status hs e k in
    let same : write_headers ph.cnt true ph.name ph.value ≡ rebuilt true hs =
      rw (cnt, ns, vs) refl in
    (
      write_headers ph.cnt true ph.name ph.value,
      refl,
      status_line,
      rebuilt-length ph.cnt true ph.name ph.value,
      subst (λ x. Reads status hs (hp_parse_headers (some (status ++ 10 ∷ x)))) (sym same)
          (Reads-rebuilt status hs e k),
    )
