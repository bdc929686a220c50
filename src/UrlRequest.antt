-- ===== src/UrlRequest.antt =====
-- src/ppb_url_request_info.c: the description of a request that a plugin makes, as a resource of
-- src/pp_resource.c. The strings of variables come from src/ppb_var.c.
pub mod PostData
pub mod Properties
use freshplayerplugin.Base.{
  ℕ, ◌-◌, ◌^◌, Bool, true, false, not, ◌&&◌, Option, none, some, List, [], ◌∷◌, ◌==◌, if◌then◌else◌,
  ℤ, Bytes, codes, equal, c_string,
}
use freshplayerplugin.Headers.{skip_spaces, lower}
use freshplayerplugin.Resource.{Res, Registry, get_type, release}
use freshplayerplugin.Resource.Access.{finish, make, with_resource}
use freshplayerplugin.Var.{
  PpVar, undefined, null, bool, int32, double, string, object, array, dictionary, array_buffer,
  resource, VarTable,
}
use freshplayerplugin.Var.Values.{var_to_utf8}

abbrev pub request_type : ℕ
request_type = 2

-- `enum pp_request_method_e`
pub data Method : Type 0 where
  unknown_method get_method post_method : Method

-- `struct post_data_item_s`: `file_ref` is 0 for data, which has its length. A time stands as the
-- bit pattern of its double.
pub record PostItem : Type 0 where
  pub content : Bytes
  pub file_ref : ℕ
  pub start_offset : ℤ
  pub number_of_bytes : ℤ
  pub expected_time : ℕ

-- `struct pp_url_request_info_s` behind the common fields; `none` is NULL. The thresholds are the
-- bit patterns of 32-bit numbers.
pub record Request : Type 0 where
  pub method : Method
  pub url : Option Bytes
  pub headers : Option Bytes
  pub is_immediate_javascript : Bool
  pub stream_to_file : Bool
  pub follow_redirects : Bool
  pub record_download_progress : Bool
  pub record_upload_progress : Bool
  pub custom_referrer_url : Option Bytes
  pub allow_cross_origin_requests : Bool
  pub allow_credentials : Bool
  pub custom_content_transfer_encoding : Option Bytes
  pub prefetch_buffer_upper_threshold : ℕ
  pub prefetch_buffer_lower_threshold : ℕ
  pub custom_user_agent : Option Bytes
  pub post_data : Option (List PostItem)

-- `PP_URLRequestProperty`; any other number is `other`.
pub data Property : Type 0 where
  url_property method_property headers_property stream_to_file_property : Property
  follow_redirects_property download_progress_property upload_progress_property : Property
  referrer_property cross_origin_property credentials_property encoding_property : Property
  upper_threshold_property lower_threshold_property user_agent_property : Property
  other : ℕ → Property

-- the memory of a new resource
abbrev pub zeroed_request : Request
zeroed_request = record {
  method = unknown_method;
  url = none;
  headers = none;
  is_immediate_javascript = false;
  stream_to_file = false;
  follow_redirects = false;
  record_download_progress = false;
  record_upload_progress = false;
  custom_referrer_url = none;
  allow_cross_origin_requests = false;
  allow_credentials = false;
  custom_content_transfer_encoding = none;
  prefetch_buffer_upper_threshold = 0;
  prefetch_buffer_lower_threshold = 0;
  custom_user_agent = none;
  post_data = none;
}

-- -1 as a 32-bit number
abbrev pub no_threshold : ℕ
no_threshold = 4294967295

abbrev pub init_request : Request → Request
init_request r = record r {
  method = unknown_method;
  url = none;
  headers = none;
  stream_to_file = false;
  follow_redirects = true;
  record_download_progress = false;
  record_upload_progress = false;
  custom_referrer_url = none;
  allow_cross_origin_requests = false;
  allow_credentials = false;
  custom_content_transfer_encoding = none;
  prefetch_buffer_upper_threshold = no_threshold;
  prefetch_buffer_lower_threshold = no_threshold;
  custom_user_agent = none;
  post_data = some [];
}

unfoldable pub create_request : Option ℕ → Registry Request → Option (Registry Request × ℕ)
unfolding make
create_request inst g = make zeroed_request init_request request_type inst g

unfoldable pub is_url_request_info : ℕ → Registry Request → Bool
is_url_request_info h g = get_type h g == request_type

-- `strncasecmp(s, prefix, strlen(prefix)) == 0`
unfoldable pub starts_as : Bytes → Bytes → Bool
starts_as [] s = true
starts_as (c ∷ prefix) [] = false
starts_as (c ∷ prefix) (d ∷ s) = lower c == lower d && starts_as prefix s

-- `ENSURE_TYPE(PP_VARTYPE_STRING)` with the text of the string, and the same for the other types
unfoldable pub text_of : PpVar → VarTable → Option Bytes
text_of (string i) t = some (c_string (var_to_utf8 (string i) t))
text_of _ t = none

unfoldable pub flag_of : PpVar → Option Bool
flag_of (bool b) = some b
flag_of _ = none

unfoldable pub number_of : PpVar → Option ℕ
number_of (int32 n) = some n
number_of _ = none

unfoldable pub with_value {ℓ} :
    {A : Type ℓ} → (A → Request → Request) → Request → Option A → Option Request
with_value f r none = none
with_value f r (some x) = some (f x r)

unfoldable pub method_of : Bytes → Method
method_of s =
    if equal s (codes "GET")
    then get_method
    else if equal s (codes "POST")
    then post_method
    else unknown_method

-- The switch of `ppb_url_request_info_set_property`; `none` is that `retval` is PP_FALSE.
unfoldable pub assign : Property → PpVar → VarTable → Request → Option Request
unfolding text_of flag_of number_of with_value method_of starts_as skip_spaces
assign url_property v t r =
    with_value
      (λ s r. record r {
        url = some (skip_spaces s);
        is_immediate_javascript = starts_as (codes "javascript:") (skip_spaces s);
      })
      r (text_of v t)
assign method_property v t r = with_value (λ s r. record r { method = method_of s }) r (text_of v t)
assign headers_property v t r = with_value (λ s r. record r { headers = some s }) r (text_of v t)
assign stream_to_file_property v t r =
    with_value (λ b r. record r { stream_to_file = b }) r (flag_of v)
assign follow_redirects_property v t r =
    with_value (λ b r. record r { follow_redirects = b }) r (flag_of v)
assign download_progress_property v t r =
    with_value (λ b r. record r { record_download_progress = b }) r (flag_of v)
assign upload_progress_property v t r =
    with_value (λ b r. record r { record_upload_progress = b }) r (flag_of v)
assign referrer_property v t r =
    with_value (λ s r. record r { custom_referrer_url = some s }) r (text_of v t)
assign cross_origin_property v t r =
    with_value (λ b r. record r { allow_cross_origin_requests = b }) r (flag_of v)
assign credentials_property v t r =
    with_value (λ b r. record r { allow_credentials = b }) r (flag_of v)
assign encoding_property v t r =
    with_value (λ s r. record r { custom_content_transfer_encoding = some s }) r (text_of v t)
assign upper_threshold_property v t r =
    with_value (λ n r. record r { prefetch_buffer_upper_threshold = n }) r (number_of v)
assign lower_threshold_property v t r =
    with_value (λ n r. record r { prefetch_buffer_lower_threshold = n }) r (number_of v)
assign user_agent_property v t r =
    with_value (λ s r. record r { custom_user_agent = some s }) r (text_of v t)
assign (other n) v t r = none

abbrev pub set_found : ℕ → Res Request → Registry Request → Option Request → Registry Request × Bool
set_found h r g none = ((release h g).0, false)
set_found h r g (some b) = (finish h (λ _. b) r g, true)

unfoldable pub set_property :
    ℕ → Property → PpVar → VarTable → Registry Request → Option (Registry Request × Bool)
unfolding with_resource assign
set_property h p v t g =
    with_resource request_type h g (g, false) (λ r g'. set_found h r g' (assign p v t r.body))
