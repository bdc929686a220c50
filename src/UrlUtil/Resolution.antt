-- ===== src/UrlUtil/Resolution.antt =====
-- What the functions of src/ppb_url_util.c give to their caller.
use freshplayerplugin.Base.{
  ℕ, ◌+◌, ◌-◌, ◌<◌, ◌^◌, ◌≡◌, refl, Bool, some, Bytes, length, c_string, arith,
}
use freshplayerplugin.Var.{PpVar, VarTable, add_ref, release}
use freshplayerplugin.Var.Claims.{Covered, hits, add_ref-Covered, release-Covered}
use freshplayerplugin.Var.Values.{var_to_utf8}
use freshplayerplugin.Var.Values.RoundTrip.{var_to_utf8-from_utf8_z}
use freshplayerplugin.Uri.Merge.{Components, merge_uris}
use freshplayerplugin.UrlUtil.{
  Location, c_text, asked, resolve_relative_to_document, get_plugin_instance_url,
}

-- Resolving a reference against the document of an instance makes a variable, if there are less
-- than 2^32 of them and the merge has less than 2^32 - 1 bytes, whose text is the merge of the texts of the base and of the reference, as a
-- string of C; the components, if asked for, are those of the merge.
pub resolve_relative_to_document-merge_uris :
    (parse : Bytes → Components) (l : Location) (reference : PpVar) (given : Bool) (t : VarTable)
    → length t.var_ht < 2 ^ 32
    → t.var_id < 2 ^ 32
    → length (c_string (merge_uris parse (c_text l.document_base_url t) (c_text reference t)))
      < 2 ^ 32 - 1
    → let merged = merge_uris parse (c_text l.document_base_url t) (c_text reference t) in
      (t' : VarTable) × (v : PpVar) × (resolve_relative_to_document parse (some l) reference given t
        ≡ some (t', v, asked parse given merged))
      × (var_to_utf8 v t' ≡ c_string merged)
unfolding resolve_relative_to_document
resolve_relative_to_document-merge_uris parse l reference given t few last short =
    let merged : Bytes = merge_uris parse (c_text l.document_base_url t) (c_text reference t) in
    let (t', v, made, read) = var_to_utf8-from_utf8_z merged t short few last in
    (t', v, rw made refl, read)

-- The URL of a plugin's instance, which the instance has a claim on, is given with a claim for its
-- caller, which the counts cover; when the caller releases it, the instance still has its own.
pub get_plugin_instance_url-Covered :
    (parse : Bytes → Components) (l : Location) (given : Bool) (t : VarTable) (c : ℕ → ℕ)
    → Covered t (λ i. hits i l.instance_url + c i)
    → let (t1, v, components) = get_plugin_instance_url parse (some l) given t in
      (v ≡ l.instance_url)
      × Covered t1 (λ i. hits i v + (hits i l.instance_url + c i))
      × (t2 : VarTable) × (release v t1 ≡ some t2)
      × Covered t2 (λ i. hits i l.instance_url + c i)
unfolding get_plugin_instance_url
get_plugin_instance_url-Covered parse l given t c cov =
    let owned : ℕ → ℕ = λ i. hits i l.instance_url + c i in
    let cov1 = add_ref-Covered l.instance_url t owned (λ j e. ground arith) cov in
    let (t2, is, cov2) = release-Covered l.instance_url (add_ref l.instance_url t) owned cov1 in
    (refl, cov1, t2, is, cov2)
