-- ===== src/UrlLoader.antt =====
-- src/ppb_url_loader.c: a request on its way, as a resource of src/pp_resource.c, with the calls of
-- src/np_functions.c by which the browser answers, and src/ppb_url_response_info.c. What is read of
-- a response's body is in Stream; a loader holds its fields.
pub mod Sending
pub mod Opening
pub mod Arrival
pub mod Responses
use freshplayerplugin.Base.{
  ℕ, Bool, true, false, Option, none, some, List, [], ◌∷◌, ◌==◌, if◌then◌else◌, ℤ, pos, negsuc,
  Bytes, length,
}
use freshplayerplugin.Base.Assoc.{Assoc}
use freshplayerplugin.Resource.{Registry, get_type}
use freshplayerplugin.Resource.Access.{make, look, change}
use freshplayerplugin.Var.{VarTable}
use freshplayerplugin.UrlUtil.{Location}
use freshplayerplugin.UrlRequest.{
  Method, unknown_method, get_method, PostItem, Request, zeroed_request,
}
use freshplayerplugin.UrlRequest.PostData.{post_data_free}
use freshplayerplugin.Stream.{Loader, loader_type}

-- `struct PP_CompletionCallback`, less its flags; `none` is NULL.
pub record Callback : Type 0 where
  pub func : Option ℕ
  pub user_data : ℕ

abbrev pub no_callback : Callback
no_callback = record { func = none; user_data = 0 }

-- `struct pp_url_loader_s` behind the common fields; `np_stream` is the address of an NPStream, or
-- 0. The fields that reading and writing the body use are in `stream`.
pub record UrlLoader : Type 0 where
  pub stream : Loader
  pub status_line : Option Bytes
  pub headers : Option Bytes
  pub http_code : ℤ
  pub method : Method
  pub url : Option Bytes
  pub response_size : ℤ
  pub stream_to_file : Bool
  pub stream_to_file_ccb : Callback
  pub stream_to_file_ccb_ml : ℕ
  pub request_headers : Option Bytes
  pub follow_redirects : Bool
  pub record_download_progress : Bool
  pub record_upload_progress : Bool
  pub custom_referrer_url : Option Bytes
  pub allow_cross_origin_requests : Bool
  pub allow_credentials : Bool
  pub custom_content_transfer_encoding : Option Bytes
  pub custom_user_agent : Option Bytes
  pub target : Option Bytes
  pub post_data : Option (List PostItem)
  pub np_stream : ℕ
  pub ccb : Callback
  pub ccb_ml : ℕ

-- What stands behind the common fields of a resource: a loader, a request, the handle that a
-- response's description has of its loader, or a file; `zeroed` is new memory.
pub data Item : Type 0 where
  zeroed : Item
  loader : UrlLoader → Item
  request : Request → Item
  response : ℕ → Item
  file : Option Bytes → Item

-- The part of `struct pp_instance_s` that these functions use.
pub record Instance : Type 0 where
  pub location : Location
  pub content_url_loader : ℕ
  pub content_url_loader_used : Bool

-- The tables, an instance, and the `pdata` of the browser's streams by their addresses.
pub record Net : Type 0 where
  pub registry : Registry Item
  pub vars : VarTable
  pub pp_i : Instance
  pub pdata : Assoc ℕ

-- A call of `ppb_message_loop_post_work_with_result`, with a value of `enum PP_Error`
pub data Status : Type 0 where
  ok failed : Status

pub record Posted : Type 0 where
  pub ccb : Callback
  pub ccb_ml : ℕ
  pub result : Status

abbrev pub no_stream : Loader
no_stream = record {
  file = none;
  read_pos = 0;
  finished_loading = false;
  redirect_url = none;
  read_tasks = [];
}

abbrev pub no_loader : UrlLoader
no_loader = record {
  stream = no_stream;
  status_line = none;
  headers = none;
  http_code = pos 0;
  method = unknown_method;
  url = none;
  response_size = pos 0;
  stream_to_file = false;
  stream_to_file_ccb = no_callback;
  stream_to_file_ccb_ml = 0;
  request_headers = none;
  follow_redirects = false;
  record_download_progress = false;
  record_upload_progress = false;
  custom_referrer_url = none;
  allow_cross_origin_requests = false;
  allow_credentials = false;
  custom_content_transfer_encoding = none;
  custom_user_agent = none;
  target = none;
  post_data = none;
  np_stream = 0;
  ccb = no_callback;
  ccb_ml = 0;
}

-- The structure behind a pointer of the type that the resource has been acquired with.
abbrev pub as_loader : Item → UrlLoader
as_loader (loader l) = l
as_loader _ = no_loader

abbrev pub as_request : Item → Request
as_request (request r) = r
as_request _ = zeroed_request

abbrev pub on_loader : (UrlLoader → UrlLoader) → Item → Item
on_loader f i = loader (f (as_loader i))

-- -1
abbrev pub unknown_size : ℤ
unknown_size = negsuc 0

abbrev pub init_loader : UrlLoader → UrlLoader
init_loader l = record l {
  response_size = unknown_size;
  method = get_method;
  stream = record l.stream { file = none };
}

unfoldable pub url_loader_create : Option ℕ → Registry Item → Option (Registry Item × ℕ)
unfolding make
url_loader_create inst g = make zeroed (on_loader init_loader) loader_type inst g

unfoldable pub is_url_loader : ℕ → Registry Item → Bool
is_url_loader h g = get_type h g == loader_type

-- `ppb_url_loader_destroy`, with what it leaves of the loader
unfoldable pub url_loader_destroy : UrlLoader → Registry Item → UrlLoader × Registry Item
unfolding post_data_free
url_loader_destroy l g = (
  record l {
    stream = record l.stream { file = none; read_tasks = [] };
    headers = none;
    url = none;
    status_line = none;
    request_headers = none;
    custom_referrer_url = none;
    custom_content_transfer_encoding = none;
    custom_user_agent = none;
    target = none;
    post_data = none;
  },
  post_data_free l.post_data g,
)

-- The numbers of bytes received and to be received, and the result. The Boolean is that `fstat`
-- works; nothing is written for a bad resource.
abbrev pub progress : Bool → Item → Option (ℤ × ℤ × Bool)
progress stat i = elim (as_loader i).stream.file [
  | none ↦ some (pos 0, (as_loader i).response_size, true)
  | some f ↦
      if stat
      then some (pos (length f), (as_loader i).response_size, true)
      else some (negsuc 0, (as_loader i).response_size, false)
]

unfoldable pub get_download_progress :
    Bool → ℕ → Registry Item → Option (Registry Item × Option (ℤ × ℤ × Bool))
unfolding look
get_download_progress stat h g = look loader_type h g none (progress stat)

-- a stub
unfoldable pub get_upload_progress : ℕ → Bool
get_upload_progress h = false

-- What the functions return to the plugin; `indeterminate` is a value that nobody has set.
pub data Result : Type 0 where
  bad_resource refused pending complete indeterminate : Result

unfoldable pub finish_streaming_to_file :
    ℕ → Callback → ℕ → Registry Item → Option (Registry Item × Result)
unfolding change
finish_streaming_to_file h callback loop g =
    change loader_type h g bad_resource
      (on_loader (λ l.
        if l.stream_to_file
        then record l { stream_to_file_ccb = callback; stream_to_file_ccb_ml = loop }
        else l))
      (λ i. if (as_loader i).stream_to_file then pending else refused)

abbrev pub closed : UrlLoader → UrlLoader
closed l = record l { stream = record l.stream { file = none }; headers = none; url = none }

unfoldable pub close : ℕ → Registry Item → Option (Registry Item × Bool)
unfolding change
close h g = change loader_type h g false (on_loader closed) (λ i. true)
