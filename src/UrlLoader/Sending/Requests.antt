-- ===== src/UrlLoader/Sending/Requests.antt =====
-- What a POST request of src/ppb_url_loader.c consists of.
use freshplayerplugin.Base.{
  ℕ, ◌^◌, ◌<◌, ◌≡◌, refl, ap, Bool, true, false, Option, none, some, List, [], ◌∷◌, ◌++◌, ◌==◌,
  Bytes, codes, length, Option-cases, inl, inr,
}
use freshplayerplugin.UrlRequest.{PostItem, post_method}
use freshplayerplugin.UrlRequest.PostData.{FileInfo, post_data_get_all_item_length}
use freshplayerplugin.UrlRequest.PostData.Writing.{Readable, body_bytes}
use freshplayerplugin.UrlRequest.PostData.Writing.Lengths.{write_items-length}
use freshplayerplugin.UrlLoader.Sending.{
  Sent, post_url, post_url_notify, OpenParam, newline, print_size, header_lines, add_length,
  end_headers, post_buffer, url_loader_open_ptac,
}

-- The lines of the headers, the line that announces the length of the body, and the body.
abbrev pub request_text : OpenParam → Bytes → Bytes
request_text p body =
    ((header_lines p).0 ++ (codes "Content-Length: " ++ (print_size (length body) ++ newline)))
    ++ newline
    ++ body

add_length-line :
    (n : ℕ) (buf : Bytes × Bool)
    → (n == 0) ≡ false
    → end_headers (add_length n buf)
      ≡ (buf.0 ++ (codes "Content-Length: " ++ (print_size n ++ newline))) ++ newline
unfolding add_length end_headers
add_length-line n buf e = rw e refl

-- The call for a POST request.
abbrev pub post_call : OpenParam → Bytes → Sent
post_call p text = elim p.target [
  | none ↦ post_url_notify p.url text p.loader
  | some target ↦ post_url p.url (some target) text
]

module _ (query : ℕ → Option FileInfo) (same_time : ℕ → ℕ → Bool) (open_file : ℕ → Option Readable)
    (rounds : ℕ) where
  post_buffer-request :
      (p : OpenParam) (items : List PostItem) (body : Bytes)
      → p.post_data ≡ some items
      → body_bytes query same_time open_file items ≡ some body
      → (length body == 0) ≡ false
      → length body < rounds
      → length body < 2 ^ 64
      → post_buffer query same_time open_file rounds p ≡ some (some (request_text p body))
  unfolding post_buffer
  post_buffer-request p items body has read n fuel small =
      let text : Bytes = end_headers (add_length (length body) (header_lines p)) in
      let (written, known) =
        write_items-length query same_time open_file items rounds text body read fuel small in
      rw (has, known, written)
        (ap (λ x. some (some (x ++ body))) (add_length-line (length body) (header_lines p) n))

  -- A POST request of a living instance, with a body whose files can be opened, have not changed,
  -- and are as long as their slices, is sent to the browser as the lines of its headers, a line with
  -- the length of the body, an empty line and the body, whose bytes are just as many as that line
  -- says; and what the browser answers is what the caller gets. The body is not empty and below
  -- 2^64 bytes, and the loop over a file has more rounds than there are bytes.
  pub url_loader_open_ptac-post :
      (browser : Sent → ℕ) (p : OpenParam) (items : List PostItem) (body : Bytes)
      → p.method ≡ post_method
      → p.post_data ≡ some items
      → body_bytes query same_time open_file items ≡ some body
      → (length body == 0) ≡ false
      → length body < rounds
      → length body < 2 ^ 64
      → let sent : Sent = post_call p (request_text p body) in
        url_loader_open_ptac query same_time open_file rounds browser true p
        ≡ some (some (browser sent), sent ∷ [])
  unfolding url_loader_open_ptac
  url_loader_open_ptac-post browser p items body is_post has read n fuel small =
      let made = post_buffer-request p items body has read n fuel small in
      elim (Option-cases p.target) [
        | inl e ↦ rw (is_post, made, e) refl
        | inr (target, e) ↦ rw (is_post, made, e) refl
      ]

  pub url_loader_open_ptac-unset :
      (browser : Sent → ℕ) (p : OpenParam) (items : List PostItem)
      → p.method ≡ post_method
      → p.post_data ≡ some items
      → post_data_get_all_item_length query same_time items ≡ none
      → url_loader_open_ptac query same_time open_file rounds browser true p ≡ some (none, [])
  unfolding url_loader_open_ptac post_buffer
  url_loader_open_ptac-unset browser p items is_post has error = rw (is_post, has, error) refl
