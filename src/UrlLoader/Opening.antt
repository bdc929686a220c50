-- ===== src/UrlLoader/Opening.antt =====
-- Opening a loader of src/ppb_url_loader.c, and following a redirect. The caller posts a task to its
-- message loop and runs the loop until the browser's thread has made its call; what else happens to
-- the table of resources until then is a parameter.
pub mod Tables
pub mod Redirect
pub mod Opened
pub mod Done
use freshplayerplugin.Base.{
  ℕ, Bool, true, false, not, ◌&&◌, Option, none, some, List, [], ◌∷◌, ◌==◌, if◌then◌else◌, Bytes,
  is_some, ◌>>=◌,
}
use mathlib.Core.Option
use freshplayerplugin.Base.Assoc.{Assoc, insert}
use freshplayerplugin.Resource.{Registry, find, store, release, add_ref, unref}
use freshplayerplugin.Resource.Access.{look, with_resource}
use freshplayerplugin.Var.{PpVar, VarTable}
use freshplayerplugin.Var
use freshplayerplugin.Var.Values.{var_from_utf8_z}
use freshplayerplugin.Uri.Merge.{Components}
use freshplayerplugin.UrlUtil.{Location, resolve_relative_to_document, c_text}
use freshplayerplugin.UrlRequest.{get_method, Request, PostItem, request_type}
use freshplayerplugin.UrlRequest.PostData.{FileInfo, post_data_duplicate, post_data_free}
use freshplayerplugin.UrlRequest.PostData.Writing.{Readable}
use freshplayerplugin.Stream.{loader_type}
use freshplayerplugin.UrlLoader.Sending.{Sent, OpenParam, trim_nl, url_loader_open_ptac}
use freshplayerplugin.UrlLoader.{
  Callback, UrlLoader, Item, loader, as_loader, as_request, Net, Result, bad_resource, refused,
  pending, complete, indeterminate,
}

-- What is around a call. `temporary` is the file that `open_temporary_file` makes, `do_nothing` the
-- address of that function; `meanwhile` is
-- what happens to the resources before the browser's thread is done; `seen` are the tables in the
-- passes of the loop of a caller without a callback.
pub record Surroundings : Type 0 where
  pub parse : Bytes → Components
  pub query : ℕ → Option FileInfo
  pub same_time : ℕ → ℕ → Bool
  pub open_file : ℕ → Option Readable
  pub rounds : ℕ
  pub browser : Sent → ℕ
  pub alive : Bool
  pub temporary : Option Bytes
  pub do_nothing : ℕ
  pub current_loop : ℕ
  pub connect_first_loader_to_unrequested_stream : Bool
  pub meanwhile : Registry Item → Registry Item
  pub seen : List (Registry Item)

-- `while (!done)` of a caller without a callback; a pass in which the lock is taken waits.
unfoldable pub wait_for_loading : ℕ → List (Registry Item) → Option (Registry Item)
unfolding look
wait_for_loading h [] = none
wait_for_loading h (g ∷ gs) =
    let rest = wait_for_loading h gs in
    let pass = look loader_type h g true (λ i. (as_loader i).stream.finished_loading) in
    elim pass [ none ↦ rest | some x ↦ if x.1 then some x.0 else rest ]

-- the URL of a request, resolved if it is no script
unfoldable pub request_url :
    (Bytes → Components) → Location → Request → VarTable → Option (VarTable × PpVar)
unfolding resolve_relative_to_document
request_url parse location ri t =
    let plain = var_from_utf8_z ri.url t in
    let resolved = (do
      (t1, rel_url) ← var_from_utf8_z ri.url t
      (t2, full_url, components) ←
          resolve_relative_to_document parse (some location) rel_url false t1
      t3 ← Var.release rel_url t2
      some (t3, full_url)) in
    if ri.is_immediate_javascript then plain else resolved

-- what `ppb_url_loader_open_target` writes into the loader
unfoldable pub prepared :
    Request
    → Option Bytes
    → Option Bytes
    → Option (List PostItem)
    → Option Bytes
    → Callback
    → ℕ
    → UrlLoader
    → UrlLoader
unfolding trim_nl
prepared ri url target post_data temporary callback loop l = record l {
  url = url;
  method = ri.method;
  request_headers = Option.map trim_nl ri.headers;
  follow_redirects = ri.follow_redirects;
  stream_to_file = ri.stream_to_file;
  record_download_progress = ri.record_download_progress;
  record_upload_progress = ri.record_upload_progress;
  custom_referrer_url = Option.map trim_nl ri.custom_referrer_url;
  allow_cross_origin_requests = ri.allow_cross_origin_requests;
  allow_credentials = ri.allow_credentials;
  custom_content_transfer_encoding = Option.map trim_nl ri.custom_content_transfer_encoding;
  custom_user_agent = Option.map trim_nl ri.custom_user_agent;
  target = target;
  post_data = post_data;
  stream = record l.stream { read_pos = 0; file = temporary };
  ccb = callback;
  ccb_ml = loop;
}

-- `*p`, with what is different for a redirect
abbrev pub param_of : ℕ → Option Bytes → Option (List PostItem) → UrlLoader → OpenParam
param_of h target post_data l = record {
  url = l.url;
  loader = h;
  method = l.method;
  request_headers = l.request_headers;
  custom_referrer_url = l.custom_referrer_url;
  custom_content_transfer_encoding = l.custom_content_transfer_encoding;
  custom_user_agent = l.custom_user_agent;
  target = target;
  post_data = post_data;
}

-- what the caller makes of `p->retval`
unfoldable pub conclude :
    ℕ → Option ℕ → Callback → List (Registry Item) → Net → Option (Net × Result)
unfolding wait_for_loading
conclude h none callback seen w = some (w, indeterminate)
conclude h (some retval) callback seen w =
    let waited = (do g ← wait_for_loading h seen; some (record w { registry = g }, complete)) in
    if not (retval == 0)
    then some (w, refused)
    else if is_some callback.func
    then some (w, pending)
    else waited

-- From the reference that is taken for the browser's call to the end; the loader is acquired.
unfoldable pub exchange :
    Surroundings → OpenParam → Callback → Net → Option (Net × Result × List Sent)
unfolding url_loader_open_ptac conclude
exchange e p callback w = do
  (retval, sent) ← url_loader_open_ptac e.query e.same_time e.open_file e.rounds e.browser e.alive p
  let g = (release p.loader (add_ref p.loader w.registry).0).0
  (w', result) ←
      conclude p.loader retval callback e.seen
        (record w { registry = (unref p.loader (e.meanwhile g)).0 })
  some (w', result, sent)

-- an assignment through the pointer to an acquired resource
unfoldable pub write_through : ℕ → Item → Registry Item → Registry Item
write_through h b g = elim (find h g) [ none ↦ g | some r ↦ store h (record r { body = b }) g ]

-- With both resources acquired.
unfoldable pub open_acquired :
    Surroundings
    → ℕ
    → ℕ
    → Callback
    → Option Bytes
    → UrlLoader
    → Request
    → Net
    → Option (Net × Result × List Sent)
unfolding request_url prepared exchange write_through
open_acquired e h ri callback target l r w = do
  (t, full_url) ← request_url e.parse w.pp_i.location r w.vars
  let copy = post_data_duplicate r.post_data (post_data_free l.post_data w.registry)
  let l' = prepared r (some (c_text full_url t)) target copy.0 e.temporary callback e.current_loop l
  t' ← Var.release full_url t
  let g = (release ri (write_through h (loader l') copy.1)).0
  if e.connect_first_loader_to_unrequested_stream && w.pp_i.content_url_loader == 0
      then some (
        record w {
          registry = (release h g).0;
          vars = t';
          pp_i = record w.pp_i { content_url_loader = h };
        },
        pending,
        [],
      )
      else exchange e (param_of h target l'.post_data l') callback
          (record w { registry = g; vars = t' })

-- A step that may wait, after one that may wait.
abbrev pub joined {ℓ} : {A : Type ℓ} → Option (Option A) → Option A
joined m = m >>= λ x. x

unfoldable pub open_target :
    Surroundings → ℕ → ℕ → Callback → Option Bytes → Net → Option (Net × Result × List Sent)
unfolding with_resource open_acquired
open_target e h ri callback target w =
    let missing = some (w, bad_resource, []) in
    joined (
      with_resource loader_type h w.registry missing (λ l g. joined (
        with_resource request_type ri g
          (some (record w { registry = (release h g).0 }, bad_resource, []))
          (λ r g'.
            open_acquired e h ri callback target (as_loader l.body) (as_request r.body)
              (record w { registry = g' })))))

unfoldable pub url_loader_open :
    Surroundings → ℕ → ℕ → Callback → Net → Option (Net × Result × List Sent)
unfolding open_target
url_loader_open e h ri callback w = open_target e h ri callback none w

-- What `ppb_url_loader_follow_redirect` writes into the loader.
unfoldable pub redirected : Option Bytes → Callback → ℕ → UrlLoader → UrlLoader
redirected temporary callback loop l = record l {
  stream = record l.stream { file = temporary; read_pos = 0; redirect_url = none };
  url = l.stream.redirect_url;
  status_line = none;
  headers = none;
  request_headers = none;
  post_data = none;
  np_stream = 0;
  method = get_method;
  ccb = callback;
  ccb_ml = loop;
}

-- `ul->np_stream->pdata = NULL`
abbrev pub abort_stream : ℕ → Assoc ℕ → Assoc ℕ
abort_stream stream pdata = if stream == 0 then pdata else insert stream 0 pdata

unfoldable pub follow_redirect :
    Surroundings → ℕ → Callback → Net → Option (Net × Result × List Sent)
unfolding with_resource redirected exchange write_through
follow_redirect e h callback w = joined (
    with_resource loader_type h w.registry (some (w, bad_resource, [])) (λ r g.
      let l = as_loader r.body in
      let l' = redirected e.temporary callback e.current_loop l in
      exchange e (param_of h none none l') callback (record w {
        registry = write_through h (loader l') (post_data_free l.post_data g);
        pdata = abort_stream l.np_stream w.pdata;
      })))
