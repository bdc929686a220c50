-- ===== src/UrlRequest/PostData/Writing/Lengths.antt =====
-- What the loops that send a request's body append, and when they end.
use freshplayerplugin.Base.{
  ℕ, zero, suc, ◌+◌, ◌-◌, ◌%◌, ◌^◌, ◌≤◌, ◌<◌, ◌≡◌, refl, sym, ap, ◌∙◌, Bool, true, false, ◌||◌,
  ◌&&◌, Option, none, some, List, [], ◌∷◌, ◌++◌, ◌==◌, leb, Bytes, length, take, drop,
  length-append, Bool-cases, inl, inr, ◌>>=◌, >>=-eq-some, arith,
}
use freshplayerplugin.UrlRequest.{PostItem}
use freshplayerplugin.UrlRequest.PostData.{
  FileInfo, item_length, length_from, post_data_get_all_item_length,
}
use native.Mathlib.Nat.{mod-eq_of_lt}
use mathlib.Core.List.{append-nil, append_assoc}
use freshplayerplugin.UrlRequest.PostData.Writing.{
  Readable, chunk, smaller, copy_file, size_of, write_slice, first_of, post_data_write_to_gstring,
  write_items, item_bytes, body_bytes,
}

-- Reading a chunk, and then the rest.
take_chunks :
    (m r n : ℕ) (f : Bytes)
    → m + r ≡ n
    → n ≤ length f
    → (take m f ++ take r (drop m f) ≡ take n f) × (length (take m f) ≡ m) × (r ≤ length (drop m f))
take_chunks zero r n f h k = (ap (λ x. take x f) (omega arith), refl, omega arith)
take_chunks (suc m) r zero f h k = absurd (omega arith)
take_chunks (suc m) r (suc n) [] h k = elim k [ ]
take_chunks (suc m) r (suc n) (c ∷ f) h k =
    let (whole, long, left) = take_chunks m r n f (omega arith) (omega arith) in
    (ap (◌∷◌ c) whole, omega (arith, long), left)

-- A file that has as many bytes as are asked for is copied up to there.
copy_file-long :
    (fuel : ℕ) (fails : Bool) (f : Bytes) (to_write : ℕ) (s : Bytes)
    → to_write < fuel
    → to_write ≤ length f
    → copy_file fuel fails f to_write s ≡ some (s ++ take to_write f)
unfolding copy_file
copy_file-long zero fails f to_write s h k = elim h [ ]
copy_file-long (suc fuel) fails f zero s h k = ap some (sym (append-nil s))
copy_file-long (suc fuel) fails f (suc n) s h k =
    let m : ℕ = smaller (suc n) chunk in
    let small : m ≤ suc n = ground arith in
    let some_bytes : 0 < m = ground arith in
    let (whole, long, left) = take_chunks m (suc n - m) (suc n) f (omega (arith, small)) k in
    let more : (suc n == 0 || fails && length (take m f) == 0) ≡ false = ground (arith, long) in
    rw (more, long)
      (copy_file-long fuel fails (drop m f) (suc n - m) (s ++ take m f) (omega (arith, some_bytes))
          left
        ∙ ap some
            (append_assoc s (take m f) (take (suc n - m) (drop m f)) ∙ ap (λ x. s ++ x) whole))

take-drop-length : (m : ℕ) (f : Bytes) → length (take m f) + length (drop m f) ≡ length f
take-drop-length zero f = omega arith
take-drop-length (suc m) [] = omega arith
take-drop-length (suc m) (c ∷ f) = omega (arith, take-drop-length m f)

-- A file with fewer bytes than are asked for is read for ever.
copy_file-short :
    (fuel : ℕ) (f : Bytes) (to_write : ℕ) (s : Bytes)
    → length f < to_write
    → copy_file fuel false f to_write s ≡ none
unfolding copy_file
copy_file-short zero f to_write s h = refl
copy_file-short (suc fuel) f to_write s h =
    let m : ℕ = smaller to_write chunk in
    let more : (to_write == 0) ≡ false = ground arith in
    rw more (
      copy_file-short fuel (drop m f) (to_write - length (take m f)) (s ++ take m f)
        (omega (arith, take-drop-length m f)))

length-take : (n : ℕ) (f : Bytes) → n ≤ length f → length (take n f) ≡ n
length-take zero f h = refl
length-take (suc n) [] h = elim h [ ]
length-take (suc n) (c ∷ f) h = omega (arith, length-take n f)

first_of-length :
    (n : ℕ) (f : Readable) (b : Bytes)
    → first_of (some n) (some f) ≡ some b
    → (n ≤ length f.bytes) × (take n f.bytes ≡ b) × (length b ≡ n)
first_of-length n f b e = elim (Bool-cases (leb n (length f.bytes))) [
  | inl y ↦
      let h : n ≤ length f.bytes = ground arith in
      let same : take n f.bytes ≡ b = ground arith in
      (h, same, ap length (sym same) ∙ length-take n f.bytes h)
  | inr n ↦ absurd (ground arith)
]

write_slice-first_of :
    (fuel : ℕ) (o : Option ℕ) (s : Bytes) (p : Option Readable) (b : Bytes)
    → first_of o p ≡ some b
    → length b < fuel
    → (write_slice fuel o s p ≡ some (s ++ b)) × (o ≡ some (length b))
write_slice-first_of fuel none s p b e h = absurd (cc)
write_slice-first_of fuel (some n) s none b e h = absurd (cc)
write_slice-first_of fuel (some n) s (some f) b e h =
    let (there, same, long) = first_of-length n f b e in
    (
      copy_file-long fuel f.fails f.bytes n s (omega arith) there ∙ ap (λ x. some (s ++ x)) same,
      ap some (sym long),
    )

module _ (query : ℕ → Option FileInfo) (same_time : ℕ → ℕ → Bool)
    (open_file : ℕ → Option Readable) where
  item_length-data :
      (i : PostItem)
      → (i.file_ref == 0) ≡ true
      → item_length query same_time i ≡ some (length i.content)
  unfolding item_length
  item_length-data i e = rw e refl

  item_bytes-written :
      (fuel : ℕ) (i : PostItem) (s b : Bytes)
      → item_bytes query same_time open_file i ≡ some b
      → length b < fuel
      → (post_data_write_to_gstring query same_time open_file fuel i s ≡ some (s ++ b))
        × (item_length query same_time i ≡ some (length b))
  unfolding post_data_write_to_gstring
  item_bytes-written fuel i s b e h = elim (Bool-cases (i.file_ref == 0)) [
    | inl y ↦
        let same : i.content ≡ b = ground arith in
        (rw y (ap (λ x. some (s ++ x)) same), item_length-data i y ∙ ap (λ x. some (length x)) same)
    | inr n ↦
        let out =
          write_slice-first_of fuel (item_length query same_time i) s (open_file i.file_ref) b
            (ground arith) h in
        (rw n out.0, out.1)
  ]

  -- the bytes of the first piece and of the others
  body_bytes-cons :
      (i : PostItem) (is : List PostItem) (b : Bytes)
      → body_bytes query same_time open_file (i ∷ is) ≡ some b
      → (x : Bytes) × (xs : Bytes) × (item_bytes query same_time open_file i ≡ some x)
        × (body_bytes query same_time open_file is ≡ some xs)
        × (x ++ xs ≡ b)
  unfolding body_bytes
  body_bytes-cons i is b e =
      let (x, first, more) =
        >>=-eq-some (item_bytes query same_time open_file i)
          (λ x. body_bytes query same_time open_file is >>= λ xs. some (x ++ xs)) e in
      let (xs, rest, whole) =
        >>=-eq-some (body_bytes query same_time open_file is) (λ xs. some (x ++ xs)) more in
      (x, xs, first, rest, cc)

  -- The loops over the items of a body, with the length that has been counted before.
  write_items-length_from :
      (is : List PostItem) (fuel t : ℕ) (s b : Bytes)
      → body_bytes query same_time open_file is ≡ some b
      → length b < fuel
      → t + length b < 2 ^ 64
      → (write_items query same_time open_file fuel is s ≡ some (s ++ b))
        × (length_from query same_time t is ≡ some (t + length b))
  unfolding write_items length_from body_bytes
  write_items-length_from [] fuel t s b e h k =
      let none_left : [] ≡ b = cc in
      (
        ap (λ x. some x) (sym (append-nil s) ∙ ap (λ x. s ++ x) none_left),
        ap some (omega (arith, ap length none_left)),
      )
  write_items-length_from (i ∷ is) fuel t s b e h k =
      let (x, xs, first, rest, whole) = body_bytes-cons i is b e in
      let sizes : length x + length xs ≡ length b = sym (length-append x xs) ∙ ap length whole in
      let (written, known) = item_bytes-written fuel i s x first (omega (arith, sizes)) in
      let (later, total) =
        write_items-length_from is fuel (t + length x) (s ++ x) xs rest (omega (arith, sizes))
          (omega (arith, sizes)) in
      let small : (t + length x) % 2 ^ 64 ≡ t + length x = mod-eq_of_lt (omega (arith, sizes)) in
      (
        rw written (later ∙ ap some (append_assoc s x xs ∙ ap (λ y. s ++ y) whole)),
        rw (known, small) (total ∙ ap some (omega (arith, sizes))),
      )

  -- A body whose files can be opened, have not changed, and are as long as their slices, is appended
  -- to the string piece by piece, if the loop over each file has as many rounds as the body has
  -- bytes, and one more; and the length that is announced for it, if it is below 2^64, is the number
  -- of bytes that are appended.
  pub write_items-length :
      (is : List PostItem) (fuel : ℕ) (s b : Bytes)
      → body_bytes query same_time open_file is ≡ some b
      → length b < fuel
      → length b < 2 ^ 64
      → (write_items query same_time open_file fuel is s ≡ some (s ++ b))
        × (post_data_get_all_item_length query same_time is ≡ some (length b))
  unfolding post_data_get_all_item_length
  write_items-length is fuel s b e h k =
      let (written, known) = write_items-length_from is fuel 0 s b e h (omega arith) in
      (written, known ∙ ap some (omega arith))

  -- A slice of a file that is longer than the file, or whose length is an error, has no end, if no
  -- read of the file fails: the loop that appends the slice never finishes, however many rounds it is given.
  pub post_data_write_to_gstring-stuck :
      (i : PostItem) (f : Readable)
      → (i.file_ref == 0) ≡ false
      → open_file i.file_ref ≡ some f
      → f.fails ≡ false
      → length f.bytes < size_of (item_length query same_time i)
      → (fuel : ℕ) (s : Bytes)
      → post_data_write_to_gstring query same_time open_file fuel i s ≡ none
  unfolding post_data_write_to_gstring
  post_data_write_to_gstring-stuck i f is_file opened reads short fuel s =
      rw (is_file, opened, reads)
        (copy_file-short fuel f.bytes (size_of (item_length query same_time i)) s short)
