-- ===== src/Var/Values/RoundTrip.antt =====
-- What is put into a string or a buffer of src/ppb_var.c comes out again.
use freshplayerplugin.Base.{
  ℕ, ◌+◌, ◌-◌, ◌%◌, ◌^◌, ◌<◌, ◌≡◌, refl, ap, false, none, some, [], ◌∷◌, ◌==◌, if◌then◌else◌, Bytes,
  c_string, length, take, arith,
}
use native.Mathlib.Nat.{mod-eq_of_lt}
use freshplayerplugin.Base.Assoc.{insert, lookup-insert}
use freshplayerplugin.Var.{PpVar, string, array_buffer, VarS, VarTable, blank, create, get_var_s}
use freshplayerplugin.Var.Ids.{get_new_var_id_total}
use freshplayerplugin.Var.Values.{
  var_from_utf8, var_from_utf8_z, var_to_utf8, array_buffer_map, array_buffer_unmap, write_mapped,
}

take-length : (d : Bytes) → take (length d) d ≡ d
take-length [] = refl
take-length (c ∷ d) = ap (◌∷◌ c) (take-length d)

take-c_string : (d : Bytes) → take (length (c_string d)) d ≡ c_string d
unfolding c_string
take-c_string [] = refl
take-c_string (c ∷ d) = ground (arith, take-c_string d)

-- A string of exactly the first `len` bytes.
var_to_utf8-from_utf8_take :
    (d : Bytes) (len : ℕ) (t : VarTable)
    → len < 2 ^ 32 - 1
    → length t.var_ht < 2 ^ 32
    → t.var_id < 2 ^ 32
    → (t' : VarTable) × (v : PpVar) × (var_from_utf8 (some d) len t ≡ some (t', v))
      × (var_to_utf8 v t' ≡ take len d)
unfolding var_from_utf8 create var_to_utf8
var_to_utf8-from_utf8_take d len t short few last =
    let fits : len % 2 ^ 32 ≡ len = mod-eq_of_lt (omega (arith, short)) in
    let next : (len + 1) % 2 ^ 32 ≡ len + 1 = mod-eq_of_lt (omega (arith, short)) in
    let room : (len + 1 == 0) ≡ false = ground arith in
    let (i, e, unused, small) = get_new_var_id_total t few last in
    let entry : VarS = record (blank (string i)) { str = take len d } in
    (
      record t { var_ht = insert i entry t.var_ht; var_id = i },
      string i,
      rw (fits, next, room, e) refl,
      ground (arith, lookup-insert i i entry t.var_ht),
    )

-- The same for `ppb_var_var_from_utf8_z` and a string of less than 2^32 - 1 bytes; it takes the bytes before the first zero.
pub var_to_utf8-from_utf8_z :
    (d : Bytes) (t : VarTable)
    → length (c_string d) < 2 ^ 32 - 1
    → length t.var_ht < 2 ^ 32
    → t.var_id < 2 ^ 32
    → (t' : VarTable) × (v : PpVar) × (var_from_utf8_z (some d) t ≡ some (t', v))
      × (var_to_utf8 v t' ≡ c_string d)
unfolding var_from_utf8_z
var_to_utf8-from_utf8_z d t short few last =
    let (t', v, made, read) = var_to_utf8-from_utf8_take d (length (c_string d)) t short few last in
    (t', v, made, rw read (take-c_string d))

-- Mapping a live array buffer that is not mapped gives memory with its bytes; what the holder
-- writes there, over the whole length, is the buffer's contents after the unmapping, and nothing
-- else of the table differs.
pub unmap-write-map :
    (i j : ℕ) (m : Bytes) (e : VarS) (t : VarTable)
    → get_var_s i t ≡ some e
    → e.map_addr ≡ none
    → length m ≡ length e.str
    → ((array_buffer_map (array_buffer i) t).1 ≡ some e.str)
      × (get_var_s j (
            array_buffer_unmap
              (array_buffer i)
              (write_mapped i m (array_buffer_map (array_buffer i) t).0))
          ≡ (if i == j then some (record e { str = m }) else get_var_s j t))
unfolding array_buffer_map array_buffer_unmap write_mapped
unmap-write-map i j m e t live unmapped len =
    let e1 : VarS = record e { map_addr = some e.str } in
    let e2 : VarS = record e { map_addr = some m } in
    let e3 : VarS = record e { str = take (length e.str) m; map_addr = none } in
    let m1 = insert i e1 t.var_ht in
    let m2 = insert i e2 m1 in
    (
      ground arith,
      ground (
        arith,
        lookup-insert i i e1 t.var_ht,
        lookup-insert i i e2 m1,
        lookup-insert i j e1 t.var_ht,
        lookup-insert i j e2 m1,
        lookup-insert i j e3 m2,
        take-length m,
      ),
    )
