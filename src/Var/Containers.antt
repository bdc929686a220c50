-- ===== src/Var/Containers.antt =====
-- Arrays and dictionaries of src/ppb_var.c. `none` as a whole is a NULL dereference, a write out
-- of bounds, or a search that does not end.
pub mod Slots
pub mod Arrays
pub mod Dictionaries
use freshplayerplugin.Base.{
  ℕ, ◌+◌, ◌-◌, ◌^◌, Bool, true, false, Option, none, some, List, [], ◌∷◌, ◌++◌, ◌==◌, ltb, leb,
  if◌then◌else◌, Bytes, equal, c_string, length, get_elem?, set, replicate, ◌>>=◌,
}
use freshplayerplugin.Base.Assoc.{lookup}
use freshplayerplugin.Var.{
  PpVar, undefined, string, array, dictionary, VarS, VarTable, blank, get_var_s, put, create,
  add_ref, release,
}
use freshplayerplugin.Var.Values.{var_to_utf8, var_from_utf8_z}

unfoldable pub array_create : VarTable → Option (VarTable × PpVar)
array_create t = do (t', i) ← create (λ i. blank (array i)) t; some (t', array i)

unfoldable pub array_get : PpVar → ℕ → VarTable → Option (VarTable × PpVar)
array_get (array i) index t = do
  e ← get_var_s i t
  some (elim (get_elem? e.items index) [ none ↦ (t, undefined) | some v ↦ (add_ref v t, v) ])
array_get _ index t = some (t, undefined)

-- `g_array_set_size(v->array, index + 1)` if the index is behind the end, and the write; `index + 1`
-- is 0 for the last 32-bit index, and the write is then out of bounds
unfoldable pub write_item : ℕ → PpVar → List PpVar → Option (List PpVar)
write_item index v items =
    if ltb index (length items)
    then some (set items index v)
    else if index + 1 == 2 ^ 32
    then none
    else some (set (items ++ replicate (index + 1 - length items) undefined) index v)

unfoldable pub array_set : PpVar → ℕ → PpVar → VarTable → Option (VarTable × Bool)
array_set (array i) index v t = do
  e ← get_var_s i t
  items' ← write_item index v e.items
  some (add_ref v (put i (record e { items = items' }) t), true)
array_set _ index v t = some (t, false)

unfoldable pub array_get_length : PpVar → VarTable → Option ℕ
array_get_length (array i) t = do e ← get_var_s i t; some (length e.items)
array_get_length _ t = some 0

unfoldable pub array_set_length : PpVar → ℕ → VarTable → VarTable × Bool
array_set_length a length t = (t, false)

unfoldable pub dictionary_create : VarTable → Option (VarTable × PpVar)
dictionary_create t = do (t', i) ← create (λ i. blank (dictionary i)) t; some (t', dictionary i)

unfoldable pub dict_find : Bytes → List (Bytes × PpVar) → Option PpVar
dict_find k [] = none
dict_find k ((j, v) ∷ d) = if equal j k then some v else dict_find k d

-- `g_hash_table_replace`
unfoldable pub dict_replace : Bytes → PpVar → List (Bytes × PpVar) → List (Bytes × PpVar)
dict_replace k v [] = (k, v) ∷ []
dict_replace k v ((j, w) ∷ d) = if equal j k then (k, v) ∷ d else (j, w) ∷ dict_replace k v d

unfoldable pub dictionary_get : PpVar → PpVar → VarTable → Option (VarTable × PpVar)
dictionary_get (dictionary i) (string j) t = do
  e ← get_var_s i t
  some (elim (dict_find (c_string (var_to_utf8 (string j) t)) e.dict) [
    | none ↦ (t, undefined)
    | some v ↦ (add_ref v t, v)
  ])
dictionary_get _ _ t = some (t, undefined)

-- `var_dict_val_destroy_func` on the value that a replacement drives out
unfoldable pub release_old : Option PpVar → VarTable → Option VarTable
release_old none t = some t
release_old (some old) t = release old t

unfoldable pub dictionary_set : PpVar → PpVar → PpVar → VarTable → Option (VarTable × Bool)
dictionary_set (dictionary i) (string j) v t = do
  e ← get_var_s i t
  let k = c_string (var_to_utf8 (string j) t)
  let t1 = put i (record e { dict = dict_replace k v e.dict }) t
  t2 ← release_old (dict_find k e.dict) t1
  some (add_ref v t2, true)
dictionary_set _ _ v t = some (t, false)

unfoldable pub dictionary_delete : PpVar → PpVar → VarTable → VarTable
dictionary_delete d k t = t

unfoldable pub dictionary_has_key : PpVar → PpVar → VarTable → Bool
dictionary_has_key d k t = false

-- the loop of `ppb_var_dictionary_get_keys`, from the place `idx` of the new array
unfoldable pub copy_keys : List (Bytes × PpVar) → PpVar → ℕ → VarTable → Option VarTable
copy_keys [] keys idx t = some t
copy_keys ((k, v) ∷ d) keys idx t = do
  (t1, key) ← var_from_utf8_z (some k) t
  (t2, stored) ← array_set keys idx key t1
  t3 ← release key t2
  copy_keys d keys (idx + 1) t3

unfoldable pub dictionary_get_keys : PpVar → VarTable → Option (VarTable × PpVar)
unfolding copy_keys
dictionary_get_keys (dictionary i) t = do
  (t1, keys) ← array_create t
  e ← get_var_s i t1
  t2 ← copy_keys e.dict keys 0 t1
  some (t2, keys)
dictionary_get_keys _ t = some (t, undefined)
