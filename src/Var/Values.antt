-- ===== src/Var/Values.antt =====
-- Strings and array buffers of src/ppb_var.c. An allocation is taken to succeed.
pub mod RoundTrip
use freshplayerplugin.Base.{
  ℕ, ◌+◌, ◌%◌, ◌^◌, ◌==◌, if◌then◌else◌, Bool, true, false, Option, none, some, List, [], Bytes,
  c_string, length, take, replicate, ◌>>=◌,
}
use freshplayerplugin.Base.Assoc.{lookup}
use freshplayerplugin.Var.{
  PpVar, string, array_buffer, VarS, VarTable, blank, get_var_s, put, create,
}

-- `data` is the memory that the pointer leads to, and `none` is NULL. The length is a uint32_t: a
-- greater one is cut, and for the greatest `malloc(len + 1)` is of no bytes, which the bytes are
-- then written outside of: `none`.
unfoldable pub var_from_utf8 : Option Bytes → ℕ → VarTable → Option (VarTable × PpVar)
var_from_utf8 data_ptr size t =
    let len = size % 2 ^ 32 in
    let text : Bytes = elim data_ptr [ none ↦ replicate len 0 | some d ↦ take len d ] in
    let made = (do
      (t', i) ← create (λ i. record (blank (string i)) { str = text }) t
      some (t', string i)) in
    if (len + 1) % 2 ^ 32 == 0 then none else made

unfoldable pub var_from_utf8_z : Option Bytes → VarTable → Option (VarTable × PpVar)
var_from_utf8_z none t = var_from_utf8 none 0 t
var_from_utf8_z (some d) t = var_from_utf8 (some d) (length (c_string d)) t

-- The bytes with their length. The terminator behind them is not part of the value.
unfoldable pub var_to_utf8 : PpVar → VarTable → Bytes
var_to_utf8 (string i) t = elim (get_var_s i t) [ none ↦ [] | some e ↦ e.str ]
var_to_utf8 _ t = []

unfoldable pub array_buffer_create : ℕ → VarTable → Option (VarTable × PpVar)
array_buffer_create size t = do
  (t', i) ← create (λ i. record (blank (array_buffer i)) { str = replicate size 0 }) t
  some (t', array_buffer i)

-- `none` is PP_FALSE
unfoldable pub array_buffer_byte_length : PpVar → VarTable → Option ℕ
array_buffer_byte_length (array_buffer i) t = elim (get_var_s i t) [
  | none ↦ none
  | some e ↦ some (length e.str)
]
array_buffer_byte_length _ t = none

-- The mapped memory, or `none` for NULL.
map_found : ℕ → VarTable → Option VarS → VarTable × Option Bytes
map_found i t none = (t, none)
map_found i t (some e) = elim e.map_addr [
  | some m ↦ (t, some m)
  | none ↦ (put i (record e { map_addr = some e.str }) t, some e.str)
]

unfoldable pub array_buffer_map : PpVar → VarTable → VarTable × Option Bytes
unfolding map_found
array_buffer_map (array_buffer i) t = map_found i t (get_var_s i t)
array_buffer_map _ t = (t, none)

-- `memcpy(v->str.data, v->map_addr, v->str.len)`
unmap_found : ℕ → VarTable → Option VarS → VarTable
unmap_found i t none = t
unmap_found i t (some e) = elim e.map_addr [
  | none ↦ t
  | some m ↦ put i (record e { str = take (length e.str) m; map_addr = none }) t
]

unfoldable pub array_buffer_unmap : PpVar → VarTable → VarTable
unfolding unmap_found
array_buffer_unmap (array_buffer i) t = unmap_found i t (get_var_s i t)
array_buffer_unmap _ t = t

-- What the holder of the mapped address does: it writes `m` there.
write_found : ℕ → Bytes → VarTable → Option VarS → VarTable
write_found i m t none = t
write_found i m t (some e) = elim e.map_addr [
  | none ↦ t
  | some old ↦ put i (record e { map_addr = some m }) t
]

unfoldable pub write_mapped : ℕ → Bytes → VarTable → VarTable
unfolding write_found
write_mapped i m t = write_found i m t (get_var_s i t)
