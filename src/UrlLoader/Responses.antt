-- ===== src/UrlLoader/Responses.antt =====
-- src/ppb_url_response_info.c: what a plugin reads of the response to a request. The description
-- holds a reference to its loader, and reads the loader without its lock.
pub mod Kept
use freshplayerplugin.Base.{
  ℕ, ◌-◌, ◌^◌, ◌%◌, Bool, Option, none, some, ◌==◌, codes, ℤ, pos, negsuc, ◌>>=◌,
}
use freshplayerplugin.Resource.{Res, Registry, find, allocate, release, add_ref, unref, get_type}
use freshplayerplugin.Resource.Access.{finish, with_resource}
use freshplayerplugin.Var.{PpVar, undefined, int32, VarTable}
use freshplayerplugin.Var.Values.{var_from_utf8_z}
use freshplayerplugin.Stream.{loader_type}
use freshplayerplugin.UrlLoader.Opening.{joined}
use freshplayerplugin.UrlLoader.{UrlLoader, Item, zeroed, response, file, as_loader, no_loader}

abbrev pub response_type : ℕ
response_type = 3

abbrev pub file_ref_type : ℕ
file_ref_type = 20

unfoldable pub is_url_response_info : ℕ → Registry Item → Bool
is_url_response_info h g = get_type h g == response_type

-- with the loader acquired: a new description, which takes a reference
abbrev pub describe : ℕ → Res Item → Registry Item → Option (Registry Item × ℕ)
describe h l g =
    let made = allocate zeroed response_type l.instance_ptr g in
    with_resource response_type made.1 made.0 ((release h made.0).0, 0)
      (λ r g'. ((release h (finish made.1 (λ _. response h) r (add_ref h g').0)).0, made.1))

unfoldable pub get_response_info : ℕ → Registry Item → Option (Registry Item × ℕ)
unfolding with_resource
get_response_info h g =
    joined (with_resource loader_type h g (some (g, 0)) (λ l g'. describe h l g'))

-- `ppb_url_response_info_destroy`
unfoldable pub response_destroy : ℕ → Registry Item → Registry Item
response_destroy h g = (unref h g).0

-- `PP_URLResponseProperty`; any other number is `other`.
pub data ResponseProperty : Type 0 where
  url_of redirect_url_of redirect_method_of status_code_of : ResponseProperty
  status_line_of headers_of : ResponseProperty
  other : ℕ → ResponseProperty

-- an `int` as the bit pattern that a variable has
abbrev pub int_bits : ℤ → ℕ
int_bits (pos n) = n % 2 ^ 32
int_bits (negsuc n) = 2 ^ 32 - 1 - n % 2 ^ 32

unfoldable pub property_of : ResponseProperty → UrlLoader → VarTable → Option (VarTable × PpVar)
property_of url_of l t = var_from_utf8_z l.url t
property_of redirect_url_of l t = var_from_utf8_z l.stream.redirect_url t
property_of redirect_method_of l t = var_from_utf8_z (some (codes "GET")) t
property_of status_code_of l t = some (t, int32 (int_bits l.http_code))
property_of status_line_of l t = var_from_utf8_z l.status_line t
property_of headers_of l t = var_from_utf8_z l.headers t
property_of (other n) l t = some (t, undefined)

-- the structure behind `ri->url_loader`, which is that of the handle while the reference is held
abbrev pub loader_behind : Item → Registry Item → UrlLoader
loader_behind (response h) g = elim (find h g) [ none ↦ no_loader | some r ↦ as_loader r.body ]
loader_behind _ g = no_loader

unfoldable pub get_property :
    ℕ → ResponseProperty → VarTable → Registry Item → Option (Registry Item × VarTable × PpVar)
unfolding with_resource property_of
get_property h property t g = joined (
    with_resource response_type h g (some (g, t, undefined)) (λ r g'. do
      (t', v) ← property_of property (loader_behind r.body g') t
      some ((release h g').0, t', v)))

-- The new file has the contents of the loader's through a copy of its descriptor.
unfoldable pub get_body_as_file_ref : ℕ → Registry Item → Option (Registry Item × ℕ)
unfolding with_resource
get_body_as_file_ref h g = joined (
    with_resource response_type h g (some (g, 0)) (λ r g'.
      let made = allocate zeroed file_ref_type r.instance_ptr g' in
      with_resource file_ref_type made.1 made.0 ((release h made.0).0, 0)
        (λ f g''.
          let contents = (loader_behind r.body g'').stream.file in
          ((release h (finish made.1 (λ _. file contents) f g'')).0, made.1))))
