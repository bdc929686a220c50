-- ===== src/UrlUtil.antt =====
-- src/ppb_url_util.c: URLs as variables of src/ppb_var.c, resolved by src/uri_parser/uri_parser.c.
-- The parser of URIs, which the build generates, is a parameter; the components are given back to
-- a caller that asks for them.
pub mod Resolution
use freshplayerplugin.Base.{
  ℕ, Bool, true, Option, none, some, [], Bytes, c_string, ◌>>=◌, if◌then◌else◌,
}
use freshplayerplugin.Var.{PpVar, undefined, VarTable, add_ref}
use freshplayerplugin.Var.Values.{var_to_utf8, var_from_utf8_z}
use freshplayerplugin.Uri.Merge.{Components, merge_uris}

-- The variables of an instance that name its document and itself.
pub record Location : Type 0 where
  pub document_base_url : PpVar
  pub document_url : PpVar
  pub instance_url : PpVar

-- the string behind the pointer that `ppb_var_var_to_utf8` returns
abbrev pub c_text : PpVar → VarTable → Bytes
c_text v t = c_string (var_to_utf8 v t)

module _ (parse : Bytes → Components) where
  abbrev pub asked : Bool → Bytes → Option Components
  asked given s = if given then some (parse s) else none

  unfoldable pub canonicalize : PpVar → Bool → VarTable → PpVar × Option Components
  canonicalize url given t = (url, asked given (c_text url t))

  unfoldable pub resolve_relative_to_url :
      PpVar → PpVar → Bool → VarTable → Option (VarTable × PpVar × Option Components)
  resolve_relative_to_url base_url relative_string given t = do
    let res : Bytes = merge_uris parse (c_text base_url t) (c_text relative_string t)
    (t', v) ← var_from_utf8_z (some res) t
    some (t', v, asked given res)

  -- The location is that of the instance, if there is such an instance.
  unfoldable pub resolve_relative_to_document :
      Option Location → PpVar → Bool → VarTable → Option (VarTable × PpVar × Option Components)
  unfolding resolve_relative_to_url
  resolve_relative_to_document none relative_string given t = some (t, undefined, none)
  resolve_relative_to_document (some l) relative_string given t =
      resolve_relative_to_url l.document_base_url relative_string given t

  -- The variable is given without a reference of its own.
  unfoldable pub get_document_url :
      Option Location → Bool → VarTable → VarTable × PpVar × Option Components
  get_document_url none given t = (t, undefined, none)
  get_document_url (some l) given t = (t, l.document_url, asked given (c_text l.document_url t))

  unfoldable pub get_plugin_instance_url :
      Option Location → Bool → VarTable → VarTable × PpVar × Option Components
  get_plugin_instance_url none given t = (t, undefined, none)
  get_plugin_instance_url (some l) given t =
      let t' = add_ref l.instance_url t in
      (t', l.instance_url, asked given (c_text l.instance_url t'))

  unfoldable pub get_plugin_referrer_url :
      Bool → VarTable → Option (VarTable × PpVar × Option Components)
  get_plugin_referrer_url given t = do
    (t', v) ← var_from_utf8_z (some []) t
    some (t', v, asked given [])

-- the stubs
unfoldable pub is_same_security_origin : PpVar → PpVar → Bool
is_same_security_origin a b = true

unfoldable pub document_can_request : PpVar → Bool
document_can_request url = true

unfoldable pub document_can_access_document : ℕ → ℕ → Bool
document_can_access_document active target = true
