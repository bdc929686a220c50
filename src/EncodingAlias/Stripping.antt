-- ===== src/EncodingAlias/Stripping.antt =====
-- What src/encoding_alias.c keeps of a name.
use freshplayerplugin.Base.{
  ℕ, suc, ◌-◌, ◌+◌, not, ◌≡◌, refl, Bool, true, false, ◌&&◌, ◌||◌, [], ◌∷◌, ◌==◌, leb,
  if◌then◌else◌, Bytes, length, ◌≤◌, arith, Bool-cases, inl, inr,
}
use freshplayerplugin.EncodingAlias.{char_type, next_type, is_digit_type, strip_byte, strip_from}

-- A letter of the other case.
abbrev pub upper : ℕ → ℕ
upper c = if leb b'a' c && leb c b'z' then c - 32 else c

unfoldable pub upper_name : Bytes → Bytes
upper_name [] = []
upper_name (c ∷ name) = upper c ∷ upper_name name

char_type-upper : (c : ℕ) → char_type (upper c) ≡ char_type c
unfolding char_type
char_type-upper c = ground arith

next_type-upper : (name : Bytes) → next_type (upper_name name) ≡ next_type name
unfolding next_type upper_name
next_type-upper [] = refl
next_type-upper (c ∷ name) = char_type-upper c

char_type-same : (c : ℕ) → is_digit_type (char_type c) ≡ true → upper c ≡ c
unfolding char_type
char_type-same c e = ground arith

strip_byte-upper :
    (after_digit : Bool) (following c : ℕ) (x y z : Bytes)
    → strip_byte after_digit (char_type c) following (upper c) x y z
      ≡ strip_byte after_digit (char_type c) following c x y z
unfolding strip_byte
strip_byte-upper after_digit following c x y z = elim (Bool-cases (is_digit_type (char_type c))) [
  | inl e ↦ rw (char_type-same c e)
  | inr n ↦ ground (arith, n)
]

pub strip_from-upper :
    (after_digit : Bool) (name : Bytes)
    → strip_from after_digit (upper_name name) ≡ strip_from after_digit name
unfolding strip_from upper_name
strip_from-upper after_digit [] = refl
strip_from-upper after_digit (c ∷ name) =
    rw
      (
        char_type-upper c,
        next_type-upper name,
        strip_from-upper after_digit name,
        strip_from-upper true name,
        strip_from-upper false name,
      )
      (strip_byte-upper after_digit (next_type name) c (strip_from after_digit name)
        (strip_from true name) (strip_from false name))

-- A byte of a stripped name: a digit or a small letter.
abbrev pub is_stripped : ℕ → Bool
is_stripped c = leb b'0' c && leb c b'9' || leb b'a' c && leb c b'z'

unfoldable pub all_stripped : Bytes → Bool
all_stripped [] = true
all_stripped (c ∷ s) = is_stripped c && all_stripped s

char_type-digit : (c : ℕ) → is_digit_type (char_type c) ≡ true → is_stripped c ≡ true
unfolding char_type
char_type-digit c e = ground arith

char_type-letter :
    (c : ℕ)
    → (char_type c == 0 || is_digit_type (char_type c)) ≡ false
    → is_stripped (char_type c) ≡ true
unfolding char_type
char_type-letter c e = ground arith

strip_byte-all_stripped :
    (after_digit : Bool) (following c : ℕ) (x y z : Bytes)
    → all_stripped x ≡ true
    → all_stripped y ≡ true
    → all_stripped z ≡ true
    → all_stripped (strip_byte after_digit (char_type c) following c x y z) ≡ true
unfolding strip_byte all_stripped
strip_byte-all_stripped after_digit following c x y z ex ey ez =
    ground (arith, char_type-digit c, char_type-letter c)

strip_from-all_stripped :
    (after_digit : Bool) (name : Bytes) → all_stripped (strip_from after_digit name) ≡ true
unfolding strip_from all_stripped
strip_from-all_stripped after_digit [] = refl
strip_from-all_stripped after_digit (c ∷ name) =
    strip_byte-all_stripped after_digit (next_type name) c _ _ _
      (strip_from-all_stripped after_digit name) (strip_from-all_stripped true name)
      (strip_from-all_stripped false name)

strip_byte-length :
    (after_digit : Bool) (type following c n : ℕ) (x y z : Bytes)
    → length x ≤ n
    → length y ≤ n
    → length z ≤ n
    → length (strip_byte after_digit type following c x y z) ≤ suc n
unfolding strip_byte
strip_byte-length after_digit type following c n x y z hx hy hz = ground arith

strip_from-length :
    (after_digit : Bool) (name : Bytes) → length (strip_from after_digit name) ≤ length name
unfolding strip_from
strip_from-length after_digit [] = omega arith
strip_from-length after_digit (c ∷ name) =
    strip_byte-length after_digit (char_type c) (next_type name) c (length name) _ _ _
      (strip_from-length after_digit name) (strip_from-length true name)
      (strip_from-length false name)

-- The stripped name fits the copy of the name that it is written over, consists of digits and small
-- letters, and is the same for the name with other letter case.
pub strip_from-all :
    (name : Bytes)
    → (length (strip_from false name) ≤ length name)
      × (all_stripped (strip_from false name) ≡ true)
      × (strip_from false (upper_name name) ≡ strip_from false name)
strip_from-all name =
    (strip_from-length false name, strip_from-all_stripped false name, strip_from-upper false name)

-- The digits that make a 0 behind them count: is the last byte that is no 0, going back, a digit?
unfoldable pub in_number : Bytes → Bool
in_number [] = false
in_number (c ∷ before) = if c == b'0' then in_number before else leb b'1' c && leb c b'9'

abbrev pub starts_with_digit : Bytes → Bool
starts_with_digit [] = false
starts_with_digit (c ∷ name) = leb b'0' c && leb c b'9'

-- A leading zero of a number that goes on.
abbrev pub is_padding : Bytes → ℕ → Bytes → Bool
is_padding before c name = c == b'0' && not (in_number before) && starts_with_digit name

abbrev pub is_letter : ℕ → Bool
is_letter c = leb b'a' c && leb c b'z' || leb b'A' c && leb c b'Z'

abbrev pub lower : ℕ → ℕ
lower c = if leb b'A' c && leb c b'Z' then c + 32 else c

-- A name by what it says: its letters in small, and its digits without the zeros that pad numbers;
-- `before` are the bytes before it, the last one first.
unfoldable pub essence : Bytes → Bytes → Bytes
essence before [] = []
essence before (c ∷ name) =
    let rest = essence (c ∷ before) name in
    if (is_letter c || leb b'0' c && leb c b'9') && not (is_padding before c name)
    then lower c ∷ rest
    else rest

next_type-digit : (name : Bytes) → is_digit_type (next_type name) ≡ starts_with_digit name
unfolding next_type char_type
next_type-digit [] = refl
next_type-digit (c ∷ name) = ground arith

-- The byte's step, whatever `after_digit` is set to for what follows it.
strip_byte-essence :
    (before : Bytes) (c : ℕ) (name rest : Bytes)
    → strip_from (in_number (c ∷ before)) name ≡ rest
    → strip_byte
        (in_number before)
        (char_type c)
        (next_type name)
        c
        (strip_from (in_number before) name)
        (strip_from true name)
        (strip_from false name)
      ≡ (if (is_letter c || leb b'0' c && leb c b'9') && not (is_padding before c name)
          then lower c ∷ rest
          else rest)
unfolding strip_byte char_type in_number
strip_byte-essence before c name rest e = ground (arith, next_type-digit name)

strip_from-essence :
    (name before : Bytes) → strip_from (in_number before) name ≡ essence before name
unfolding strip_from essence
strip_from-essence [] before = refl
strip_from-essence (c ∷ name) before =
    strip_byte-essence before c name (essence (c ∷ before) name)
      (strip_from-essence name (c ∷ before))

pub strip_from-all_of : (name : Bytes) → strip_from false name ≡ essence [] name
unfolding in_number
strip_from-all_of name = strip_from-essence name []
