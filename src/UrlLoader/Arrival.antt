-- ===== src/UrlLoader/Arrival.antt =====
-- The browser's calls for a stream in src/np_functions.c, on a loader of src/ppb_url_loader.c:
-- NPP_NewStream, NPP_URLNotify, NPP_URLRedirectNotify, NPP_Write and NPP_DestroyStream. Calls of
-- ppb_message_loop_post_work_with_result are in the result; a loop refuses one without a function.
pub mod Callbacks
pub mod Rebuilt
use freshplayerplugin.Base.{
  ℕ, suc, ◌+◌, Bool, true, false, not, ◌&&◌, Option, none, some, List, [], ◌∷◌, ◌++◌, ◌==◌, ltb,
  leb, if◌then◌else◌, ℤ, pos, negsuc, Bytes, length, is_some, ◌>>=◌,
}
use freshplayerplugin.Base.Assoc.{Assoc, insert, lookup}
use freshplayerplugin.Headers.{ParsedHeaders, hp_parse_headers}
use freshplayerplugin.Resource.{Res, Registry}
use freshplayerplugin.Resource.Access.{finish, change, with_resource}
use freshplayerplugin.Var
use freshplayerplugin.Var.{VarTable, PpVar}
use freshplayerplugin.Var.Values.{var_from_utf8_z}
use freshplayerplugin.UrlUtil.{Location}
use freshplayerplugin.Stream.{
  Loader, Delivery, ReadTask, Answer, loader_type, read_body, write_body, destroy_body,
}
use freshplayerplugin.Stream
use freshplayerplugin.UrlLoader.Sending.{Sent}
use freshplayerplugin.UrlLoader.Opening.{Surroundings, joined, follow_redirect}
use freshplayerplugin.UrlLoader.{
  Callback, no_callback, UrlLoader, Item, loader, as_loader, on_loader, Instance, Net, Posted,
  Status, ok, failed, unknown_size,
}

-- `NPStream`, with its address; `end` is its length, if known, and `notify_data` a loader or 0.
pub record NpStream : Type 0 where
  pub address : ℕ
  pub url : Option Bytes
  pub end : ℕ
  pub headers : Option Bytes
  pub notify_data : ℕ

abbrev pub post_if : Callback → ℕ → Status → List Posted
post_if callback loop result =
    if is_some callback.func
    then record { ccb = callback; ccb_ml = loop; result = result } ∷ []
    else []

-- The loop that puts the headers together again, from an index on; `first` is that it is 0.
unfoldable pub write_headers : ℕ → Bool → List Bytes → List Bytes → Bytes
write_headers (suc left) first (name ∷ names) (value ∷ values) =
    (if first then [] else 10 ∷ [])
    ++ (name ++ (b':' ∷ 32 ∷ (value ++ write_headers left false names values)))
write_headers _ first names values = []

-- `headers_len`, less what was counted before
unfoldable pub headers_len : ℕ → List Bytes → List Bytes → ℕ
headers_len (suc left) (name ∷ names) (value ∷ values) =
    length name + 2 + length value + 1 + headers_len left names values
headers_len _ names values = 0

-- the loader when its response has come
unfoldable pub answered : NpStream → UrlLoader → UrlLoader
answered s l = record l { ccb = no_callback; np_stream = s.address }

abbrev pub rewritten : Bool → NpStream → UrlLoader → UrlLoader
rewritten rewrite s l = if rewrite then record l { url = s.url } else l

unfoldable pub filled : NpStream → ParsedHeaders → UrlLoader → UrlLoader
unfolding write_headers
filled s ph l = record l {
  headers = some (write_headers ph.cnt true ph.name ph.value);
  http_code = ph.http_code;
  response_size = if ltb 0 s.end then pos s.end else unknown_size;
  status_line = ph.status_line;
}

abbrev pub is_redirect_code : ℤ → Bool
is_redirect_code (pos n) = leb 300 n && leb n 307
is_redirect_code (negsuc n) = false

abbrev pub is_redirect : ParsedHeaders → UrlLoader → Bool
is_redirect ph l =
    is_redirect_code ph.http_code && (is_some l.stream.redirect_url && l.follow_redirects)

-- The loader that a stream is for, whether its URL is rewritten, and the instance.
unfoldable pub choose_loader : NpStream → Instance → ℕ × Bool × Instance
choose_loader s i =
    if s.notify_data == 0 && (not (i.content_url_loader == 0) && not i.content_url_loader_used)
    then (i.content_url_loader, true, record i { content_url_loader_used = true })
    else (s.notify_data, false, i)

-- the new URL of the instance
unfoldable pub rename_instance :
    Bool → Option Bytes → Location → VarTable → Option (VarTable × Location)
rename_instance rewrite url location t =
    let renamed = (do
      t1 ← Var.release location.instance_url t
      (t2, v) ← var_from_utf8_z url t1
      some (t2, record location { instance_url = v })) in
    if rewrite then renamed else some (t, location)

-- with the loader acquired
unfoldable pub arrive :
    Surroundings → NpStream → ℕ → Bool → Res Item → Net → Option (Net × List Posted × List Sent)
unfolding answered filled rename_instance follow_redirect
arrive e s h rewrite r w = do
  let l = as_loader r.body
  let ph = hp_parse_headers s.headers
  let l' = rewritten rewrite s (answered s l)
  let posted = post_if l.ccb l.ccb_ml ok
  (t, location) ← rename_instance rewrite l'.url w.pp_i.location w.vars
  let w' = record w { vars = t; pp_i = record w.pp_i { location = location } }
  let followed = (do
    (w2, result, sent) ←
        follow_redirect e h (record { func = some e.do_nothing; user_data = 0 })
          (record w' { registry = finish h (λ _. loader l') r w.registry })
    some (w2, posted, sent))
  if is_redirect ph l
      then followed
      else some (
        record w' { registry = finish h (λ _. loader (filled s ph l')) r w.registry },
        posted,
        [],
      )

-- with the loader that the stream is for
unfoldable pub new_stream_for :
    Surroundings → NpStream → ℕ × Bool × Instance → Net → Option (Net × List Posted × List Sent)
unfolding with_resource arrive
new_stream_for e s (h, rewrite, pp_i) w =
    let w' = record w { pp_i = pp_i; pdata = insert s.address h w.pdata } in
    let came = joined (
      with_resource loader_type h w.registry (some (w', [], []))
        (λ r g. arrive e s h rewrite r (record w' { registry = g }))) in
    if h == 0 then some (w', [], []) else came

unfoldable pub np_new_stream :
    Surroundings → NpStream → Net → Option (Net × List Posted × List Sent)
unfolding choose_loader new_stream_for
np_new_stream e s w = new_stream_for e s (choose_loader s w.pp_i) w

-- The Boolean is that the reason is a network error.
unfoldable pub np_url_notify : Bool → ℕ → Registry Item → Option (Registry Item × List Posted)
unfolding change
np_url_notify network_error notify_data g =
    let failure =
      change loader_type notify_data g [] (on_loader (λ l. record l { ccb = no_callback }))
        (λ i. post_if (as_loader i).ccb (as_loader i).ccb_ml failed) in
    if network_error && not (notify_data == 0) then failure else some (g, [])

abbrev pub to_redirect : Bytes → UrlLoader → UrlLoader
to_redirect url l = record l { stream = record l.stream { redirect_url = some url } }

-- The browser is always told to stop.
unfoldable pub np_url_redirect_notify : Bytes → ℕ → Registry Item → Option (Registry Item × Bool)
unfolding change
np_url_redirect_notify url notify_data g =
    let noted = change loader_type notify_data g false (on_loader (to_redirect url)) (λ i. false) in
    if notify_data == 0 then some (g, false) else noted

-- `(PP_Resource)(size_t)stream->pdata`
abbrev pub loader_of : ℕ → Assoc ℕ → ℕ
loader_of address pdata = elim (lookup address pdata) [ none ↦ 0 | some h ↦ h ]

abbrev pub on_stream : (Loader → Loader) → UrlLoader → UrlLoader
on_stream f l = record l { stream = f l.stream }

unfoldable pub read_response_body :
    ℕ → ReadTask → Bool → Registry Item → Option (Registry Item × Answer)
unfolding change
read_response_body h rt optional g =
    change loader_type h g ([], Stream.bad_resource)
      (on_loader (on_stream (λ l. (read_body rt optional l).0)))
      (λ i. (read_body rt optional (as_loader i).stream).1)

unfoldable pub np_write : ℕ → ℕ → Bytes → Net → Option (Registry Item × List Delivery)
unfolding change
np_write address offset buffer w =
    let h = loader_of address w.pdata in
    let written =
      change loader_type h w.registry []
        (on_loader (on_stream (λ l. (write_body offset buffer l).0)))
        (λ i. (write_body offset buffer (as_loader i).stream).1) in
    if h == 0 then some (w.registry, []) else written

abbrev pub ended : UrlLoader → UrlLoader
ended l = record l { stream = (destroy_body l.stream).0; np_stream = 0 }

-- the call at the end of streaming to a file
abbrev pub file_done : UrlLoader → List Posted
file_done l =
    if not (is_some l.stream.redirect_url) && l.stream_to_file
    then record { ccb = l.stream_to_file_ccb; ccb_ml = l.stream_to_file_ccb_ml; result = ok } ∷ []
    else []

unfoldable pub np_destroy_stream : ℕ → Net → Option (Registry Item × (List Delivery × List Posted))
unfolding change
np_destroy_stream address w =
    let h = loader_of address w.pdata in
    let finished =
      change loader_type h w.registry ([], []) (on_loader ended)
        (λ i. ((destroy_body (as_loader i).stream).1, file_done (as_loader i))) in
    if h == 0 then some (w.registry, ([], [])) else finished
