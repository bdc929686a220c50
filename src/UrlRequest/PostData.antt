-- ===== src/UrlRequest/PostData.antt =====
-- The body of a request of src/ppb_url_request_info.c: pieces of data, and slices of files, each of
-- which holds a reference to its file.
pub mod Balance
pub mod Writing
use freshplayerplugin.Base.{
  ℕ, ◌+◌, ◌-◌, ◌%◌, ◌^◌, Bool, true, false, not, ◌&&◌, Option, none, some, List, [], ◌∷◌, ◌++◌,
  ◌==◌, leb, if◌then◌else◌, ℤ, pos, negsuc, Bytes, length, take, ◌>>=◌,
}
use freshplayerplugin.Resource.{Res, Registry, store, release, add_ref, unref}
use freshplayerplugin.Resource.Access.{finish, with_resource}
use freshplayerplugin.UrlRequest.{Request, PostItem, request_type}

-- `g_memdup`: NULL for NULL, and for no bytes
unfoldable pub memdup : Option Bytes → ℕ → Option Bytes
memdup none len = none
memdup (some d) len = if len == 0 then none else some (take len d)

abbrev pub append_item : PostItem → Request → Request
append_item i r = record r {
  post_data = elim r.post_data [ none ↦ none | some is ↦ some (is ++ (i ∷ [])) ];
}

abbrev pub append_copy : ℕ → Res Request → Registry Request → Option Bytes → Registry Request × Bool
append_copy h r g none = ((release h g).0, false)
append_copy h r g (some d) = (
  finish h
      (append_item (record {
        content = d;
        file_ref = 0;
        start_offset = pos 0;
        number_of_bytes = pos 0;
        expected_time = 0;
      }))
      r g,
  true,
)

unfoldable pub append_data_to_body :
    ℕ → Option Bytes → ℕ → Registry Request → Option (Registry Request × Bool)
unfolding with_resource memdup
append_data_to_body h d len g =
    with_resource request_type h g (g, false) (λ r g'. append_copy h r g' (memdup d len))

-- The file's reference is counted while the request is locked; the file may be any resource.
unfoldable pub append_file_to_body :
    ℕ → ℕ → ℤ → ℤ → ℕ → Registry Request → Option (Registry Request × Bool)
unfolding with_resource
append_file_to_body h file_ref start_offset number_of_bytes time g =
    with_resource request_type h g (g, false)
      (λ r g'.
        let item : PostItem = record {
          content = [];
          file_ref = file_ref;
          start_offset = start_offset;
          number_of_bytes = number_of_bytes;
          expected_time = time;
        } in
        let g1 = store h (record r { body = append_item item r.body }) g' in
        ((release h (add_ref file_ref g1).0).0, true))

-- the item that a round of the loop of `post_data_duplicate` appends; a piece of no bytes is left out
abbrev pub copy_item : PostItem → List PostItem → List PostItem
copy_item i rest = if i.file_ref == 0 && length i.content == 0 then rest else i ∷ rest

module _ {A : Type 0} where
  -- one round of the loop of `post_data_duplicate`: the reference that it takes
  abbrev pub take_ref : PostItem → Registry A → Registry A
  take_ref i g = if i.file_ref == 0 then g else (add_ref i.file_ref g).0

  unfoldable pub duplicate_items : List PostItem → Registry A → List PostItem × Registry A
  duplicate_items [] g = ([], g)
  duplicate_items (i ∷ is) g =
      let rest = duplicate_items is (take_ref i g) in (copy_item i rest.0, rest.1)

  unfoldable pub post_data_duplicate :
      Option (List PostItem) → Registry A → Option (List PostItem) × Registry A
  unfolding duplicate_items
  post_data_duplicate none g = (none, g)
  post_data_duplicate (some is) g = let copy = duplicate_items is g in (some copy.0, copy.1)

  abbrev pub drop_ref : PostItem → Registry A → Registry A
  drop_ref i g = if i.file_ref == 0 then g else (unref i.file_ref g).0

  unfoldable pub free_items : List PostItem → Registry A → Registry A
  free_items [] g = g
  free_items (i ∷ is) g = free_items is (drop_ref i g)

  unfoldable pub post_data_free : Option (List PostItem) → Registry A → Registry A
  unfolding free_items
  post_data_free none g = g
  post_data_free (some is) g = free_items is g

-- `ppb_url_request_info_destroy`, with what it leaves of the request
unfoldable pub destroy_request : Request → Registry Request → Request × Registry Request
unfolding post_data_free
destroy_request r g = (
  record r {
    url = none;
    headers = none;
    custom_referrer_url = none;
    custom_content_transfer_encoding = none;
    custom_user_agent = none;
    post_data = none;
  },
  post_data_free r.post_data g,
)

-- `struct PP_FileInfo`, as far as it is read
pub record FileInfo : Type 0 where
  pub size : ℤ
  pub last_modified_time : ℕ

-- What the file system says of a file, and the comparison of two times, are parameters.
module _ (query : ℕ → Option FileInfo) (same_time : ℕ → ℕ → Bool) where
  abbrev from_start : ℤ → ℕ
  from_start (pos n) = n
  from_start (negsuc n) = 0

  abbrev rest_of : ℤ → ℕ → ℕ
  rest_of (pos size) start = if leb size start then 0 else size - start
  rest_of (negsuc n) start = 0

  abbrev slice_length : PostItem → Option FileInfo → Option ℕ
  slice_length i none = none
  slice_length i (some f) =
      if not (same_time i.expected_time 0) && not (same_time f.last_modified_time i.expected_time)
      then none
      else elim i.number_of_bytes [
        | pos n ↦ some n
        | negsuc n ↦ some (rest_of f.size (from_start i.start_offset))
      ]

  -- `none` is (size_t)-1
  unfoldable pub item_length : PostItem → Option ℕ
  item_length i =
      if i.file_ref == 0 then some (length i.content) else slice_length i (query i.file_ref)

  unfoldable pub length_from : ℕ → List PostItem → Option ℕ
  unfolding item_length
  length_from total_len [] = some total_len
  length_from total_len (i ∷ is) = do
    item_len ← item_length i
    length_from ((total_len + item_len) % 2 ^ 64) is

  unfoldable pub post_data_get_all_item_length : List PostItem → Option ℕ
  unfolding length_from
  post_data_get_all_item_length is = length_from 0 is
