-- ===== src/Tests/Loading.antt =====
-- A loader of src/ppb_url_loader.c in a table with a request: its opening, the browser's answers, and
-- the description of its response.
use freshplayerplugin.Base.{
  ℕ, ◌≡◌, refl, ◌++◌, true, false, none, some, List, [], ◌∷◌, ◌==◌, ◌≤◌, if◌then◌else◌, pos, Bytes,
  codes, length, c_string, ◌<◌, arith,
}
use freshplayerplugin.Base.Assoc.{lookup, insert, remove}
use freshplayerplugin.Headers.{ParsedHeaders, hp_parse_headers}
use freshplayerplugin.Headers.Print.{print, Reads, are_headers, is_line}
use freshplayerplugin.Resource.{Res, Registry, find, unref}
use freshplayerplugin.Resource.Access.Effects.{IsFree}
use freshplayerplugin.Resource.Find.{new_res}
use freshplayerplugin.Stream.{loader_type}
use freshplayerplugin.Var.{VarTable, PpVar, string, blank, int32}
use freshplayerplugin.Var
use freshplayerplugin.Var.Values.{var_to_utf8, var_from_utf8_z, var_from_utf8}
use freshplayerplugin.UrlUtil.{c_text}
use freshplayerplugin.UrlRequest.{PostItem, Request, request_type, post_method, zeroed_request}
use freshplayerplugin.UrlRequest.PostData.Balance.{slices, nonempty_items}
use freshplayerplugin.UrlRequest.PostData.Writing.{
  Readable, post_data_write_to_gstring, body_bytes, size_of,
}
use freshplayerplugin.UrlRequest.PostData.{item_length}
use freshplayerplugin.UrlRequest.PostData.Writing.Lengths.{post_data_write_to_gstring-stuck}
use freshplayerplugin.UrlLoader.Sending.{OpenParam}
use freshplayerplugin.UrlLoader.Sending.Requests.{
  request_text, post_call, url_loader_open_ptac-post,
}
use freshplayerplugin.UrlLoader.Opening.{Surroundings, param_of, prepared, request_url, open_target}
use freshplayerplugin.UrlLoader.Opening.Tables.{IsQuiet, IsApart, freed, copied, outcome}
use freshplayerplugin.UrlLoader.Opening.Opened.{AreApart}
use freshplayerplugin.UrlLoader.Opening.Done.{opened_for, open_target-done}
use freshplayerplugin.UrlLoader.Arrival.{NpStream, headers_len, filled}
use freshplayerplugin.UrlLoader.Arrival.Callbacks.{calls}
use freshplayerplugin.UrlLoader.Arrival.Callbacks.Once.{
  Call, new_stream, url_notify, redirect_notify, call_all, any_answers, call_all-once,
}
use freshplayerplugin.UrlLoader.Arrival.Rebuilt.{filled-headers}
use freshplayerplugin.UrlLoader.Responses.{
  get_response_info, get_property, property_of, status_code_of,
}
use freshplayerplugin.UrlLoader.Responses.Kept.{get_response_info-Kept, with_response, described}
use freshplayerplugin.UrlLoader.{
  Callback, UrlLoader, Item, loader, request, no_loader, no_stream, Net, Posted,
}
use freshplayerplugin.Tests.Small.{all_path, page}

abbrev file_of_four : Readable
file_of_four = record { bytes = codes "file"; fails = false }

abbrev around : Surroundings
around = record {
  parse = all_path;
  query = λ h. none;
  same_time = λ a b. a == b;
  open_file = λ h. some file_of_four;
  rounds = 10;
  browser = λ sent. 0;
  alive = true;
  temporary = some [];
  do_nothing = 99;
  current_loop = 5;
  connect_first_loader_to_unrequested_stream = false;
  meanwhile = λ g. g;
  seen = [];
}

quiet : IsQuiet around
quiet g j = refl

abbrev answer : Callback
answer = record { func = some 7; user_data = 8 }

abbrev loading : UrlLoader
loading = record no_loader {
  stream = record no_stream { redirect_url = some (codes "/next") };
  follow_redirects = true;
  np_stream = 70;
  ccb = answer;
  ccb_ml = 5;
}

abbrev greeting : PostItem
greeting = record {
  content = codes "hello";
  file_ref = 0;
  start_offset = pos 0;
  number_of_bytes = pos 0;
  expected_time = 0;
}

abbrev asking : Request
asking = record zeroed_request {
  method = post_method;
  url = some (codes "javascript:a");
  is_immediate_javascript = true;
  post_data = some (greeting ∷ []);
}

abbrev loader_1 : Res Item
loader_1 = new_res (loader loading) loader_type 1 1

abbrev request_2 : Res Item
request_2 = new_res (request asking) request_type 1 2

abbrev items : Registry Item
items = record {
  res_tbl = (1, loader_1) ∷ (2, request_2) ∷ [];
  res_tbl_next = 3;
  destructors = none;
}

abbrev texts : VarTable
texts = record { var_ht = []; var_id = 0; deallocated = [] }

abbrev net : Net
net = record {
  registry = items;
  vars = texts;
  pp_i = record { location = page; content_url_loader = 0; content_url_loader_used = false };
  pdata = [];
}

loader-IsFree : IsFree loader_type 1 loader_1 items
unfolding lookup
loader-IsFree = record { there = refl; typed = refl; free = refl; counted = refl }

request-IsFree : IsFree request_type 2 request_2 items
unfolding lookup
request-IsFree = record { there = refl; typed = refl; free = refl; counted = refl }

no_slices : IsApart 1 none
unfolding slices
no_slices = refl

abbrev a_stream : NpStream
a_stream = record {
  address = 71;
  url = some (codes "/next");
  end = 0;
  headers = some (codes "HTTP/1.1 302 Found");
  notify_data = 1;
}

abbrev from_browser : List Call
from_browser = redirect_notify (codes "/next") ∷ new_stream a_stream ∷ url_notify true ∷ []

call_all-once_example :
    (w' : Net) × (posted : List Posted) × (call_all around 1 from_browser net ≡ some (w', posted))
    × (calls 7 posted ≡ (if any_answers from_browser then 1 else 0))
call_all-once_example =
    call_all-once around quiet refl 7 1 refl refl from_browser net
      (loader_1, loader-IsFree, refl, no_slices)

slices_apart : AreApart 1 2 none (some (greeting ∷ []))
unfolding slices
slices_apart = record {
  old_loader = refl;
  new_loader = refl;
  old_request = refl;
  new_request = refl;
}

abbrev script : Bytes
script = codes "javascript:a"

abbrev named : VarTable
named = record {
  var_ht = (1, record (blank (string 1)) { str = script }) ∷ [];
  var_id = 1;
  deallocated = [];
}

abbrev unnamed : VarTable
unnamed = record { var_ht = []; var_id = 1; deallocated = [] }

abbrev opened_loader : UrlLoader
opened_loader = opened_for around asking script none answer loading

abbrev question : OpenParam
question = param_of 1 none (some (greeting ∷ [])) opened_loader

opened_question : opened_loader.post_data ≡ some (greeting ∷ [])
unfolding prepared nonempty_items
opened_question = refl

read_greeting :
    body_bytes around.query around.same_time around.open_file (greeting ∷ []) ≡ some (codes "hello")
unfolding body_bytes
read_greeting = refl

is_post : question.method ≡ post_method
unfolding prepared
is_post = refl

url_named : request_url all_path page asking texts ≡ some (named, string 1)
unfolding request_url var_from_utf8_z var_from_utf8 Var.create Var.get_new_var_id Var.next_id lookup
    insert c_string
url_named = refl

name_given_back : Var.release (string 1) named ≡ some unnamed
unfolding Var.release lookup remove
name_given_back = refl

text_named : c_text (string 1) named ≡ script
unfolding var_to_utf8 c_string lookup
text_named = refl

open_target-done_example :
    let l' : UrlLoader = opened_for around asking (c_text (string 1) named) none answer loading in
    (w' : Net) × (open_target around 1 2 answer none net
      ≡ some (w', outcome 0, post_call question (request_text question (codes "hello")) ∷ []))
    × ((j : ℕ)
        → find j w'.registry ≡ (
            if 1 == j
            then some (record loader_1 { body = loader l' })
            else copied j (some (greeting ∷ [])) (freed j none (find j items))))
    × (w'.pdata ≡ [])
    × (w'.pp_i ≡ net.pp_i)
    × (w'.vars ≡ unnamed)
unfolding var_to_utf8 c_string prepared nonempty_items lookup
open_target-done_example =
    open_target-done around 1 2 loader_1 request_2 answer none net named unnamed (string 1) 0
      (post_call question (request_text question (codes "hello")) ∷ []) loader-IsFree request-IsFree
      slices_apart quiet refl url_named name_given_back refl
      (url_loader_open_ptac-post around.query around.same_time around.open_file 10 around.browser
        question (greeting ∷ []) (codes "hello") is_post refl read_greeting refl (omega arith)
        (omega arith))

-- A slice of a file that cannot be queried.
abbrev lost : PostItem
lost = record greeting { file_ref = 9 }

unknown_length : length (codes "file") < size_of (item_length around.query around.same_time lost)
unfolding item_length
unknown_length = omega arith

post_data_write_to_gstring-stuck_example :
    post_data_write_to_gstring around.query around.same_time around.open_file 1000 lost (codes "a")
    ≡ none
post_data_write_to_gstring-stuck_example =
    post_data_write_to_gstring-stuck around.query around.same_time around.open_file lost
      file_of_four refl refl refl unknown_length 1000 (codes "a")

abbrev response_headers : List (Bytes × Bytes)
response_headers = (codes "Server", codes "x") ∷ (codes "Age", codes "1") ∷ []

well_formed : are_headers response_headers ≡ true
unfolding are_headers
well_formed = refl

status_formed : is_line (codes "HTTP/1.1 200 OK") ≡ true
unfolding is_line
status_formed = refl

filled-headers_example :
    let ph : ParsedHeaders =
      hp_parse_headers (some (print (codes "HTTP/1.1 200 OK") response_headers)) in
    let l' : UrlLoader = filled a_stream ph loading in
    (text : Bytes) × (l'.headers ≡ some text)
    × (l'.status_line ≡ some (codes "HTTP/1.1 200 OK"))
    × (length text ≤ headers_len ph.cnt ph.name ph.value)
    × Reads
        (codes "HTTP/1.1 200 OK")
        response_headers
        (hp_parse_headers (some (codes "HTTP/1.1 200 OK" ++ 10 ∷ text)))
filled-headers_example =
    filled-headers a_stream loading (codes "HTTP/1.1 200 OK") response_headers status_formed
      well_formed

status_read : property_of status_code_of loading texts ≡ some (texts, int32 0)
unfolding property_of
status_read = refl

get_response_info-Kept_example :
    let g : Registry Item = with_response 1 loader_1 items loader-IsFree refl in
    let d : Res Item = described 1 loader_1 items loader-IsFree refl in
    (get_response_info 1 items ≡ some (g, 3))
    × ((j : ℕ) → find j (unref 1 g).0 ≡ (if 3 == j then some d else find j items))
    × (g' : Registry Item) × (get_property 3 status_code_of texts (unref 1 g).0
        ≡ some (g', texts, int32 0))
    × ((j : ℕ) → find j g' ≡ find j (unref 1 g).0)
get_response_info-Kept_example =
    get_response_info-Kept 1 loader_1 items loader-IsFree refl status_code_of texts texts (int32 0)
      status_read
