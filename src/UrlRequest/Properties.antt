-- ===== src/UrlRequest/Properties.antt =====
-- `ppb_url_request_info_set_property` of src/ppb_url_request_info.c: which values it takes, and what
-- is then read from the request.
use freshplayerplugin.Base.{ℕ, ◌≡◌, Bool, true, false, Option, none, some, Bytes}
use freshplayerplugin.Headers.{skip_spaces}
use freshplayerplugin.Resource.{Res}
use freshplayerplugin.Var.{PpVar, bool, int32, string, VarTable}
use freshplayerplugin.UrlRequest.{
  Request, Method, Property, url_property, method_property, headers_property,
  stream_to_file_property, follow_redirects_property, download_progress_property,
  upload_progress_property, referrer_property, cross_origin_property, credentials_property,
  encoding_property, upper_threshold_property, lower_threshold_property, user_agent_property, other,
  text_of, method_of,
}

-- The type of value that a property has.
pub data Kind : Type 0 where
  text flag number unknown : Kind

abbrev pub kind : Property → Kind
kind url_property = text
kind method_property = text
kind headers_property = text
kind stream_to_file_property = flag
kind follow_redirects_property = flag
kind download_progress_property = flag
kind upload_progress_property = flag
kind referrer_property = text
kind cross_origin_property = flag
kind credentials_property = flag
kind encoding_property = text
kind upper_threshold_property = number
kind lower_threshold_property = number
kind user_agent_property = text
kind (other n) = unknown

-- A value of the kind.
abbrev pub fits : Kind → PpVar → Bool
fits text (string i) = true
fits flag (bool b) = true
fits number (int32 n) = true
fits _ _ = false

-- What a request shows of a property.
pub data Shown : Type 0 where
  shows_text : Option Bytes → Shown
  shows_flag : Bool → Shown
  shows_number : ℕ → Shown
  shows_method : Method → Shown
  shows_nothing : Shown

abbrev pub shown : Property → Request → Shown
shown url_property r = shows_text r.url
shown method_property r = shows_method r.method
shown headers_property r = shows_text r.headers
shown stream_to_file_property r = shows_flag r.stream_to_file
shown follow_redirects_property r = shows_flag r.follow_redirects
shown download_progress_property r = shows_flag r.record_download_progress
shown upload_progress_property r = shows_flag r.record_upload_progress
shown referrer_property r = shows_text r.custom_referrer_url
shown cross_origin_property r = shows_flag r.allow_cross_origin_requests
shown credentials_property r = shows_flag r.allow_credentials
shown encoding_property r = shows_text r.custom_content_transfer_encoding
shown upper_threshold_property r = shows_number r.prefetch_buffer_upper_threshold
shown lower_threshold_property r = shows_number r.prefetch_buffer_lower_threshold
shown user_agent_property r = shows_text r.custom_user_agent
shown (other n) r = shows_nothing

-- What it is to show after a value has been set: a URL without the white space before it, and a
-- method as one of the known ones.
abbrev pub meant : Property → PpVar → VarTable → Shown
meant url_property v t = elim (text_of v t) [
  | none ↦ shows_nothing
  | some s ↦ shows_text (some (skip_spaces s))
]
meant method_property v t = elim (text_of v t) [
  | none ↦ shows_nothing
  | some s ↦ shows_method (method_of s)
]
meant _ (bool b) t = shows_flag b
meant _ (int32 n) t = shows_number n
meant _ v t = shows_text (text_of v t)

-- An accepted value is shown afterwards; a refused one leaves no request.
abbrev pub Assigned : Bool → Property → PpVar → VarTable → Option Request → Type 0
Assigned ok p v t none = ok ≡ false
Assigned ok p v t (some r) = (ok ≡ true) × (shown p r ≡ meant p v t)

-- What setting a property leaves of the request's entry.
abbrev pub After : Bool → Property → PpVar → VarTable → Res Request → Option (Res Request) → Type 0
After ok p v t q none = ⊥
After true p v t q (some x) = (x ≡ record q { body = x.body }) × (shown p x.body ≡ meant p v t)
After false p v t q (some x) = x ≡ q
