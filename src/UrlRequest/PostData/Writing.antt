-- ===== src/UrlRequest/PostData/Writing.antt =====
-- post_data_write_to_gstring of src/ppb_url_request_info.c: what of a request's body is sent.
-- The contents of the files that can be opened are a parameter; a call of read gives as many bytes
-- as it is asked for, or all that there are, and behind them fails or gives none. A loop that does not end is `none` for any fuel.
pub mod Lengths
use freshplayerplugin.Base.{
  ℕ, zero, suc, ◌+◌, ◌-◌, ◌%◌, ◌^◌, ◌≤◌, ◌<◌, ◌≡◌, refl, sym, ap, ◌∙◌, Bool, true, false, ◌||◌,
  ◌&&◌, Option, none, some, List, [], ◌∷◌, ◌++◌, ◌==◌, ltb, leb, if◌then◌else◌, Bytes, length, take,
  drop, length-append, Bool-cases, Option-cases, inl, inr, ◌>>=◌, >>=-eq-some, arith,
}
use freshplayerplugin.UrlRequest.{PostItem}
use freshplayerplugin.UrlRequest.PostData.{
  FileInfo, item_length, length_from, post_data_get_all_item_length,
}

-- `sizeof(buf)`
abbrev pub chunk : ℕ
chunk = 131072

abbrev pub smaller : ℕ → ℕ → ℕ
smaller m n = if ltb m n then m else n

-- A file that is open: the bytes that can be read, and whether read fails behind them.
pub record Readable : Type 0 where
  pub bytes : Bytes
  pub fails : Bool

-- `while (to_write > 0)`, with what is left of the file, and the string; a failing read leaves the
-- loop with what has been appended
unfoldable pub copy_file : ℕ → Bool → Bytes → ℕ → Bytes → Option Bytes
copy_file zero fails rest to_write s = none
copy_file (suc fuel) fails rest to_write s =
    let b = take (smaller to_write chunk) rest in
    let next =
      copy_file fuel fails (drop (smaller to_write chunk) rest) (to_write - length b) (s ++ b) in
    if to_write == 0 || fails && length b == 0 then some s else next

-- a length as a size_t, with (size_t)-1 for `none`
abbrev pub size_of : Option ℕ → ℕ
size_of none = 2 ^ 64 - 1
size_of (some n) = n

-- a slice of a file that can be opened, or cannot
abbrev pub write_slice : ℕ → Option ℕ → Bytes → Option Readable → Option Bytes
write_slice fuel to_write s none = some s
write_slice fuel to_write s (some f) = copy_file fuel f.fails f.bytes (size_of to_write) s

-- What is written of a file, from its beginning, if it is long enough.
abbrev pub first_of : Option ℕ → Option Readable → Option Bytes
first_of (some n) (some f) = if leb n (length f.bytes) then some (take n f.bytes) else none
first_of _ _ = none

module _ (query : ℕ → Option FileInfo) (same_time : ℕ → ℕ → Bool)
    (open_file : ℕ → Option Readable) where
  unfoldable pub post_data_write_to_gstring : ℕ → PostItem → Bytes → Option Bytes
  post_data_write_to_gstring fuel i s =
      if i.file_ref == 0
      then some (s ++ i.content)
      else write_slice fuel (item_length query same_time i) s (open_file i.file_ref)

  -- the loop of `url_loader_open_ptac` over the items
  unfoldable pub write_items : ℕ → List PostItem → Bytes → Option Bytes
  unfolding post_data_write_to_gstring
  write_items fuel [] s = some s
  write_items fuel (i ∷ is) s = do s' ← post_data_write_to_gstring fuel i s; write_items fuel is s'

  abbrev pub item_bytes : PostItem → Option Bytes
  item_bytes i =
      if i.file_ref == 0
      then some i.content
      else first_of (item_length query same_time i) (open_file i.file_ref)

  -- The pieces of a body one behind the other; `none` if a file cannot be opened, has changed, or
  -- is shorter than its slice.
  unfoldable pub body_bytes : List PostItem → Option Bytes
  body_bytes [] = some []
  body_bytes (i ∷ is) = do b ← item_bytes i; bs ← body_bytes is; some (b ++ bs)
