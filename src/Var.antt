-- ===== src/Var.antt =====
-- src/ppb_var.c: the table of reference-counted PPAPI variables. Strings, objects, arrays,
-- dictionaries and array buffers live in a table under 32-bit ids; the other values are immediate.
pub mod Values
pub mod Objects
pub mod Containers
pub mod Release
pub mod Claims
pub mod Ids
pub mod Contents
pub mod Shared
use freshplayerplugin.Base.{
  ℕ, zero, suc, ◌+◌, ◌%◌, ◌^◌, Bool, true, false, Option, none, some, List, [], ◌∷◌, ◌++◌, map,
  ◌==◌, ltb, if◌then◌else◌, is_some, ℤ, pos, incr, decr, is_nonpos, Bytes, equal, c_string, length,
  get_elem?, set, take, replicate, ◌>>=◌,
}
use freshplayerplugin.Base.Assoc.{Assoc, lookup, insert, remove, sum_by}

-- `struct PP_Var`: a type tag with a value. A double stands as its bit pattern.
pub data PpVar : Type 0 where
  undefined null : PpVar
  bool : Bool → PpVar
  int32 double : ℕ → PpVar
  string object array dictionary array_buffer resource : ℕ → PpVar

-- `struct var_s`. `str` is the string or the buffer with its length, `obj_class` and `obj_data`
-- are addresses.
pub record VarS : Type 0 where
  pub var : PpVar
  pub ref_count : ℤ
  pub str : Bytes
  pub obj_class : ℕ
  pub obj_data : ℕ
  pub map_addr : Option Bytes
  pub dict : List (Bytes × PpVar)
  pub items : List PpVar

-- `deallocated` is the log of `n2p_proxy_class.Deallocate`: the browser objects given back.
pub record VarTable : Type 0 where
  pub var_ht : Assoc VarS
  pub var_id : ℕ
  pub deallocated : List ℕ

-- the id of a variable that `reference_countable` accepts
unfoldable pub countable_id : PpVar → Option ℕ
countable_id (string i) = some i
countable_id (object i) = some i
countable_id (array i) = some i
countable_id (dictionary i) = some i
countable_id (array_buffer i) = some i
countable_id _ = none

abbrev pub get_var_s : ℕ → VarTable → Option VarS
get_var_s i t = lookup i t.var_ht

abbrev pub put : ℕ → VarS → VarTable → VarTable
put i v t = record t { var_ht = insert i v t.var_ht }

-- `get_new_var_id`, from the last id given out; the fuel is one more than the variables there are
unfoldable pub next_id : ℕ → ℕ → Assoc VarS → Option ℕ
next_id zero last m = none
next_id (suc fuel) last m =
    let i = (last + 1) % 2 ^ 32 in
    let rest = next_id fuel i m in if is_some (lookup i m) then rest else some i

unfoldable pub get_new_var_id : VarTable → Option ℕ
get_new_var_id t = next_id (length t.var_ht + 1) t.var_id t.var_ht

abbrev pub blank : PpVar → VarS
blank v = record {
  var = v;
  ref_count = pos 1;
  str = [];
  obj_class = 0;
  obj_data = 0;
  map_addr = none;
  dict = [];
  items = [];
}

-- the part that the constructors of variables share: a new id, and the entry under it
unfoldable pub create : (ℕ → VarS) → VarTable → Option (VarTable × ℕ)
create entry t = do
  i ← get_new_var_id t
  some (record t { var_ht = insert i (entry i) t.var_ht; var_id = i }, i)

-- `add_ref` of an id
add_ref_found : ℕ → VarTable → Option VarS → VarTable
add_ref_found i t none = t
add_ref_found i t (some v) = put i (record v { ref_count = incr v.ref_count }) t

add_ref_id : VarTable → Option ℕ → VarTable
unfolding add_ref_found
add_ref_id t none = t
add_ref_id t (some i) = add_ref_found i t (get_var_s i t)

unfoldable pub add_ref : PpVar → VarTable → VarTable
unfolding add_ref_id countable_id
add_ref v t = add_ref_id t (countable_id v)

unfoldable pub get_ref_count : PpVar → VarTable → ℤ
unfolding countable_id
get_ref_count v t = elim (countable_id v) [
  | none ↦ pos 0
  | some i ↦ elim (get_var_s i t) [ none ↦ pos 0 | some e ↦ e.ref_count ]
]

-- what goes with the last reference: `g_hash_table_unref` and `g_array_free` release the values
unfoldable pub kids : PpVar → VarS → List PpVar
kids (array i) e = e.items
kids (dictionary i) e = map (λ (p : Bytes × PpVar). p.1) e.dict
kids _ e = []

-- `n2p_proxy_class.Deallocate` for an object of that class
abbrev n2p_class : ℕ
n2p_class = 1

deallocate : PpVar → VarS → List ℕ → List ℕ
deallocate (object i) e log = if e.obj_class == n2p_class then e.obj_data ∷ log else log
deallocate _ e log = log

release_found : PpVar → ℕ → VarTable → Option VarS → VarTable × List PpVar
unfolding kids deallocate
release_found v i t none = (t, [])
release_found v i t (some e) =
    let e' : VarS = record e { ref_count = decr e.ref_count } in
    if is_nonpos e'.ref_count
    then (
      record t { var_ht = remove i t.var_ht; deallocated = deallocate v e t.deallocated },
      kids v e,
    )
    else (put i e' t, [])

release_id : PpVar → VarTable → Option ℕ → VarTable × List PpVar
unfolding release_found
release_id v t none = (t, [])
release_id v t (some i) = release_found v i t (get_var_s i t)

-- one call of `ppb_var_release` up to the calls that it makes, which are listed
unfoldable pub release_one : PpVar → VarTable → VarTable × List PpVar
unfolding release_id countable_id
release_one v t = release_id v t (countable_id v)

-- The calls in the order in which C makes them, the nested ones first.
unfoldable pub release_all : ℕ → List PpVar → VarTable → Option VarTable
unfolding release_one
release_all zero vs t = none
release_all (suc fuel) [] t = some t
release_all (suc fuel) (v ∷ vs) t =
    let (t', more) = release_one v t in release_all fuel (more ++ vs) t'

-- All variables that an entry holds, and the number of entries and of variables held.
unfoldable pub held : VarS → List PpVar
held e = e.items ++ map (λ (p : Bytes × PpVar). p.1) e.dict

unfoldable pub weight : VarTable → ℕ
unfolding held sum_by
weight t = sum_by (λ e. 1 + length (held e)) t.var_ht

unfoldable pub release : PpVar → VarTable → Option VarTable
unfolding release_all weight
release v t = release_all (weight t + 2) (v ∷ []) t
