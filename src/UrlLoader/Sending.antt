-- ===== src/UrlLoader/Sending.antt =====
-- What url_loader_open_ptac of src/ppb_url_loader.c asks the browser for, on the browser's thread.
-- The calls of the browser, and the files of a body, are parameters.
pub mod Requests
pub mod Trimmed
use freshplayerplugin.Base.{
  ℕ, Bool, true, false, not, ◌||◌, Option, none, some, List, [], ◌∷◌, ◌++◌, reverse, ◌==◌,
  if◌then◌else◌, Bytes, codes, ◌>>=◌,
}
use freshplayerplugin.NetAddress.{print_from}
use freshplayerplugin.UrlRequest.{Method, post_method, PostItem}
use freshplayerplugin.UrlRequest.PostData.{FileInfo, post_data_get_all_item_length}
use freshplayerplugin.UrlRequest.PostData.Writing.{Readable, write_items}

-- A call of NPN_PostURL, NPN_PostURLNotify, NPN_GetURL or NPN_GetURLNotify; the notify data of the
-- second and the fourth is the handle of the loader.
pub data Sent : Type 0 where
  post_url : (url target : Option Bytes) → (body : Bytes) → Sent
  post_url_notify : (url : Option Bytes) → (body : Bytes) → (loader : ℕ) → Sent
  get_url : (url target : Option Bytes) → Sent
  get_url_notify : (url : Option Bytes) → (loader : ℕ) → Sent

-- `struct url_loader_open_param_s`, less what its caller keeps of the message loop
pub record OpenParam : Type 0 where
  pub url : Option Bytes
  pub loader : ℕ
  pub method : Method
  pub request_headers : Option Bytes
  pub custom_referrer_url : Option Bytes
  pub custom_content_transfer_encoding : Option Bytes
  pub custom_user_agent : Option Bytes
  pub target : Option Bytes
  pub post_data : Option (List PostItem)

abbrev pub is_newline : ℕ → Bool
is_newline c = c == 10 || c == 13

unfoldable pub skip_newlines : Bytes → Bytes
skip_newlines [] = []
skip_newlines (c ∷ s) = if is_newline c then skip_newlines s else c ∷ s

-- The loop runs from the end of the string.
unfoldable pub trim_nl : Bytes → Bytes
unfolding skip_newlines
trim_nl s = reverse (skip_newlines (reverse s))

abbrev pub newline : Bytes
newline = 13 ∷ 10 ∷ []

-- `g_string_append_printf(buf, "<name>%s\r\n", value)` if there is a value, with `need_newline`
abbrev pub add_line : Bytes → Option Bytes → Bytes × Bool → Bytes × Bool
add_line name none buf = buf
add_line name (some value) buf = (buf.0 ++ (name ++ (value ++ newline)), true)

-- `"%" PRIu64`; twenty digits are enough
abbrev pub print_size : ℕ → Bytes
print_size n = print_from 20 10 n []

unfoldable pub header_lines : OpenParam → Bytes × Bool
header_lines p = add_line (codes "User-Agent: ") p.custom_user_agent (
    add_line (codes "Content-Transfer-Encoding: ") p.custom_content_transfer_encoding (
      add_line (codes "Referer: ") p.custom_referrer_url
        (add_line [] p.request_headers ([], false))))

unfoldable pub add_length : ℕ → Bytes × Bool → Bytes × Bool
unfolding print_from
add_length post_len buf =
    if post_len == 0
    then buf
    else add_line (codes "Content-Length: ") (some (print_size post_len)) buf

unfoldable pub end_headers : Bytes × Bool → Bytes
end_headers buf = if buf.1 then buf.0 ++ newline else buf.0

module _ (query : ℕ → Option FileInfo) (same_time : ℕ → ℕ → Bool) (open_file : ℕ → Option Readable)
    (rounds : ℕ) where
  -- `none` inside is the jump to `err`, and outside a loop over a file that does not end in the
  -- rounds.
  abbrev pub with_body : List PostItem → Bytes × Bool → Option ℕ → Option (Option Bytes)
  with_body items buf none = some none
  with_body items buf (some post_len) = do
    body ←
        write_items query same_time open_file rounds items (end_headers (add_length post_len buf))
    some (some body)

  unfoldable pub post_buffer : OpenParam → Option (Option Bytes)
  unfolding header_lines add_length end_headers
  post_buffer p = elim p.post_data [
    | none ↦ some (some (end_headers (header_lines p)))
    | some items ↦
        with_body items (header_lines p) (post_data_get_all_item_length query same_time items)
  ]

  module _ (browser : Sent → ℕ) where
    -- a call with its result
    abbrev pub call : Sent → Option ℕ × List Sent
    call sent = (some (browser sent), sent ∷ [])

    abbrev pub post : OpenParam → Option Bytes → Option ℕ × List Sent
    post p none = (none, [])
    post p (some buf) = elim p.target [
      | none ↦ call (post_url_notify p.url buf p.loader)
      | some target ↦ call (post_url p.url (some target) buf)
    ]

    abbrev pub get : OpenParam → Option ℕ × List Sent
    get p = elim p.target [
      | none ↦ call (get_url_notify p.url p.loader)
      | some target ↦ call (get_url p.url (some target))
    ]

    abbrev pub invalid_instance_error : ℕ
    invalid_instance_error = 2

    abbrev pub is_post : Method → Bool
    is_post post_method = true
    is_post _ = false

    -- The value of `p->retval`, which is not set before, and what was asked for. The Boolean is that
    -- the instance is alive.
    unfoldable pub url_loader_open_ptac : Bool → OpenParam → Option (Option ℕ × List Sent)
    unfolding post_buffer
    url_loader_open_ptac alive p =
        let posted = (do buf ← post_buffer p; some (post p buf)) in
        if not alive
        then some (some invalid_instance_error, [])
        else if is_post p.method
        then posted
        else some (get p)
