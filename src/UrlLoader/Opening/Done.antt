-- ===== src/UrlLoader/Opening/Done.antt =====
-- Opening a loader of src/ppb_url_loader.c for a request, from the call to its result.
use freshplayerplugin.Base.{
  ℕ, ◌≡◌, refl, ap, ◌∙◌, true, false, ◌&&◌, Option, none, some, List, [], ◌==◌, if◌then◌else◌,
  Bytes, is_some, Bool-cases, inl, inr,
}
use mathlib.Core.Option
use freshplayerplugin.Resource.{Res, Registry, find, store, release, add_ref, unref}
use freshplayerplugin.Resource.Find.{acquired, find-store}
use freshplayerplugin.Resource.Access.{with_resource}
use freshplayerplugin.Resource.Access.Effects.{IsFree, with_resource-free}
use freshplayerplugin.Stream.{loader_type}
use freshplayerplugin.Var
use freshplayerplugin.Var.{VarTable, PpVar}
use freshplayerplugin.UrlUtil.{c_text}
use freshplayerplugin.UrlRequest.{Request, request_type, PostItem, post_method}
use freshplayerplugin.UrlRequest.PostData.Balance.{nonempty_items}
use freshplayerplugin.UrlRequest.PostData.{
  post_data_free, post_data_duplicate, post_data_get_all_item_length,
}
use freshplayerplugin.UrlLoader.Sending.{Sent, OpenParam, trim_nl, url_loader_open_ptac}
use freshplayerplugin.UrlLoader.Sending.Trimmed.{without_line_ends, trim_nl-without_line_ends}
use freshplayerplugin.UrlLoader.Sending.Requests.{url_loader_open_ptac-unset}
use freshplayerplugin.UrlLoader.Opening.{
  Surroundings, param_of, prepared, request_url, open_acquired, open_target, joined, exchange,
  conclude, write_through,
}
use freshplayerplugin.UrlLoader.Opening.Tables.{IsQuiet, freed, copied, outcome, exchange-done}
use freshplayerplugin.UrlLoader.Opening.Opened.{
  AreApart, IsFree-apart, copy_of, both, opened, find-opened, find-opened_loader,
}
use freshplayerplugin.UrlLoader.{
  Callback, UrlLoader, Item, loader, as_loader, as_request, Net, Result, bad_resource,
  indeterminate,
}

-- The loader that is opened: what the request says, with a URL.
abbrev pub opened_for :
    Surroundings → Request → Bytes → Option Bytes → Callback → UrlLoader → UrlLoader
opened_for e ri url target callback l = record l {
  url = some url;
  method = ri.method;
  request_headers = Option.map without_line_ends ri.headers;
  follow_redirects = ri.follow_redirects;
  stream_to_file = ri.stream_to_file;
  record_download_progress = ri.record_download_progress;
  record_upload_progress = ri.record_upload_progress;
  custom_referrer_url = Option.map without_line_ends ri.custom_referrer_url;
  allow_cross_origin_requests = ri.allow_cross_origin_requests;
  allow_credentials = ri.allow_credentials;
  custom_content_transfer_encoding =
      Option.map without_line_ends ri.custom_content_transfer_encoding;
  custom_user_agent = Option.map without_line_ends ri.custom_user_agent;
  target = target;
  post_data = Option.map nonempty_items ri.post_data;
  ccb = callback;
  ccb_ml = e.current_loop;
  stream = record l.stream { read_pos = 0; file = e.temporary };
}

-- The question to the browser, with its answer.
abbrev pub Asks : Surroundings → OpenParam → ℕ → List Sent → Type 0
Asks e p retval sent =
    url_loader_open_ptac e.query e.same_time e.open_file e.rounds e.browser e.alive p
    ≡ some (some retval, sent)

trimmed : (o : Option Bytes) → Option.map trim_nl o ≡ Option.map without_line_ends o
trimmed none = refl
trimmed (some s) = ap some (trim_nl-without_line_ends s)

open_acquired-done :
    (e : Surroundings) (h ri : ℕ) (callback : Callback) (target : Option Bytes) (l : UrlLoader)
    (rq : Request) (w : Net) (t t' : VarTable) (full_url : PpVar)
    → request_url e.parse w.pp_i.location rq w.vars ≡ some (t, full_url)
    → Var.release full_url t ≡ some t'
    → (e.connect_first_loader_to_unrequested_stream && w.pp_i.content_url_loader == 0) ≡ false
    → let l' : UrlLoader = opened_for e rq (c_text full_url t) target callback l in
      let g : Registry Item =
        (post_data_duplicate rq.post_data (post_data_free l.post_data w.registry)).1 in
      open_acquired e h ri callback target l rq w
      ≡ exchange e
          (param_of h target l'.post_data l')
          callback
          (record w { registry = (release ri (write_through h (loader l') g)).0; vars = t' })
unfolding open_acquired prepared
open_acquired-done e h ri callback target l rq w t t' full_url url_made given_back other =
    rw
      (
        url_made,
        given_back,
        other,
        copy_of rq.post_data (post_data_free l.post_data w.registry),
        trimmed rq.headers,
        trimmed rq.custom_referrer_url,
        trimmed rq.custom_content_transfer_encoding,
        trimmed rq.custom_user_agent,
      )
      refl

-- A loader and a request that no thread is inside of: opening the loader for the request ends with
-- what the browser has answered, and the loader then has what the request says, with the resolved
-- URL and without line ends at the end of its header lines and custom values. Neither of the two
-- has another count or lock than before; each file of the request's body has one more reference
-- for each of its slices, and each file of the loader's former body as many less; no other
-- resource changes. This is said for a caller with a callback, of the time when the browser's call
-- is done, nothing else happening to the resources until then; the URL can be made a variable and
-- given back, no slice is of the loader or the request, the browser's call is made, and the loader
-- is not the one that is kept for the plugin's own stream.
pub open_target-done :
    (e : Surroundings) (h ri : ℕ) (q r : Res Item) (callback : Callback) (target : Option Bytes)
    (w : Net) (t t' : VarTable) (full_url : PpVar) (retval : ℕ) (sent : List Sent)
    → IsFree loader_type h q w.registry
    → IsFree request_type ri r w.registry
    → AreApart h ri (as_loader q.body).post_data (as_request r.body).post_data
    → IsQuiet e
    → is_some callback.func ≡ true
    → request_url e.parse w.pp_i.location (as_request r.body) w.vars ≡ some (t, full_url)
    → Var.release full_url t ≡ some t'
    → (e.connect_first_loader_to_unrequested_stream && w.pp_i.content_url_loader == 0) ≡ false
    → let l : UrlLoader = as_loader q.body in
      let rq : Request = as_request r.body in
      let l' : UrlLoader = opened_for e rq (c_text full_url t) target callback l in
      Asks e (param_of h target l'.post_data l') retval sent
      → (w' : Net) × (open_target e h ri callback target w ≡ some (w', outcome retval, sent))
        × ((j : ℕ)
            → find j w'.registry ≡ (
                if h == j
                then some (record q { body = loader l' })
                else copied j rq.post_data (freed j l.post_data (find j w.registry))))
        × (w'.pdata ≡ w.pdata)
        × (w'.pp_i ≡ w.pp_i)
        × (w'.vars ≡ t')
unfolding open_target
open_target-done e h ri q r callback target w t t' full_url retval sent free asked apart quiet told
      url_made given_back other asks =
    let l : UrlLoader = as_loader q.body in
    let rq : Request = as_request r.body in
    let l' : UrlLoader = opened_for e rq (c_text full_url t) target callback l in
    let g1 : Registry Item = store h (acquired q) w.registry in
    let g2 : Registry Item =
      both h ri q r w.registry free asked l.post_data rq.post_data apart (loader l') in
    let missing : Option (Net × Result × List Sent) = some (w, bad_resource, []) in
    let refusal : Option (Net × Result × List Sent) =
      some (record w { registry = (release h g1).0 }, bad_resource, []) in
    let second : Res Item → Registry Item → Option (Net × Result × List Sent) = λ y x.
      open_acquired e h ri callback target l (as_request y.body) (record w { registry = x }) in
    let first : Res Item → Registry Item → Option (Net × Result × List Sent) = λ y x. joined (
      with_resource request_type ri x
        (some (record w { registry = (release h x).0 }, bad_resource, []))
        (λ z x'.
          open_acquired e h ri callback target (as_loader y.body) (as_request z.body)
            (record w { registry = x' }))) in
    let asked_still : IsFree request_type ri r g1 = record {
      there =
          find-store h ri (acquired q) w.registry
          ∙ rw (IsFree-apart loader_type request_type h ri q r w.registry free asked refl)
              asked.there;
      typed = asked.typed;
      free = asked.free;
      counted = asked.counted;
    } in
    let g : Registry Item =
      opened h ri q r w.registry free asked l.post_data rq.post_data apart (loader l') in
    let (w', is, table, pdata, pp_i, vars) =
      exchange-done e quiet (param_of h target l'.post_data l') callback told retval sent asks q
        (loader l') (record w { registry = g; vars = t' })
        (find-opened_loader h ri q r w.registry free asked l.post_data rq.post_data apart
          (loader l'))
        free.free free.counted in
    (
      w',
      ap joined (with_resource-free loader_type h q w.registry missing first free)
          ∙ ap joined (with_resource-free request_type ri r g1 refusal second asked_still)
          ∙ open_acquired-done e h ri callback target l rq (record w { registry = g2 }) t t'
              full_url url_made given_back other
          ∙ is,
      λ j. table j ∙ elim (Bool-cases (h == j)) [
        | inl y ↦ rw y refl
        | inr n ↦ rw n (
            find-opened h ri q r w.registry free asked l.post_data rq.post_data apart (loader l') j
            ∙ rw n refl)
      ],
      pdata,
      pp_i,
      vars,
    )

-- If the length of a POST request's body is an error, because a file of it has changed or is not
-- there, nothing is sent, and the caller then decides by a result that nobody has set.
pub exchange-unset :
    (e : Surroundings) (p : OpenParam) (items : List PostItem) (callback : Callback) (w : Net)
    → e.alive ≡ true
    → p.method ≡ post_method
    → p.post_data ≡ some items
    → post_data_get_all_item_length e.query e.same_time items ≡ none
    → (w' : Net) × (exchange e p callback w ≡ some (w', indeterminate, []))
unfolding exchange conclude
exchange-unset e p items callback w alive is_post has error = (
  record w {
    registry =
        (unref p.loader (e.meanwhile (release p.loader (add_ref p.loader w.registry).0).0)).0;
  },
  rw
      (
        alive,
        url_loader_open_ptac-unset e.query e.same_time e.open_file e.rounds e.browser p items
            is_post has error,
      )
      refl,
)
