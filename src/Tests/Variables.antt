-- ===== src/Tests/Variables.antt =====
-- Variables of src/ppb_var.c in a table with a string, an array that holds it, and a dictionary.
use freshplayerplugin.Base.{
  ℕ, ◌+◌, ◌≡◌, refl, true, some, [], ◌∷◌, pos, ◌==◌, if◌then◌else◌, Bytes, codes, c_string, ◌<◌,
  Bool-cases, inl, inr, arith,
}
use mathlib.Core.Path.{subst}
use freshplayerplugin.Base.Assoc.{lookup, sum_by}
use freshplayerplugin.Var.{
  int32, string, array, dictionary, array_buffer, VarS, VarTable, blank, get_var_s, countable_id,
  held, release, add_ref,
}
use freshplayerplugin.Var.Release.{release_total}
use freshplayerplugin.Var.Claims.{Covered, Fits, count, hits, places, release-Covered}
use freshplayerplugin.Var.Values.{var_to_utf8}
use freshplayerplugin.Var.Containers.{array_set, array_get, dictionary_set}
use freshplayerplugin.Var.Containers.Slots.{slot}
use freshplayerplugin.Var.Containers.Arrays.{array_get-set, array_set-keeps_old}
use freshplayerplugin.Var.Containers.Dictionaries.{SetResult, dictionary_set-SetResult}

abbrev word : Bytes
word = codes "word"

-- Variable 1 is a string that the array 2 and the dictionary 3 hold; the buffer 4 has two bytes.
abbrev entry_1 : VarS
entry_1 = record (blank (string 1)) { str = word; ref_count = pos 3 }

abbrev entry_2 : VarS
entry_2 = record (blank (array 2)) { items = string 1 ∷ [] }

abbrev entry_3 : VarS
entry_3 = record (blank (dictionary 3)) { dict = (word, string 1) ∷ [] }

abbrev entry_4 : VarS
entry_4 = record (blank (array_buffer 4)) { str = 1 ∷ 2 ∷ [] }

abbrev table : VarTable
table = record {
  var_ht = (1, entry_1) ∷ (2, entry_2) ∷ (3, entry_3) ∷ (4, entry_4) ∷ [];
  var_id = 4;
  deallocated = [];
}

-- Its user has one claim on each variable.
abbrev claims : ℕ → ℕ
claims i = if i == 1 then 1 else if i == 2 then 1 else if i == 3 then 1 else if i == 4 then 1 else 0

places-table : (i : ℕ) → places i table ≡ (if i == 1 then 2 else 0)
unfolding sum_by held count countable_id
places-table i = ground arith

Covered-table : Covered table claims
unfolding lookup
Covered-table i = rw (places-table i) (elim (Bool-cases (1 == i)) [
  | inl e ↦ rw e (2, refl, ground arith)
  | inr n1 ↦ elim (Bool-cases (2 == i)) [
    | inl e ↦ rw (n1, e) (0, refl, ground arith)
    | inr n2 ↦ elim (Bool-cases (3 == i)) [
      | inl e ↦ rw (n1, n2, e) (0, refl, ground arith)
      | inr n3 ↦ elim (Bool-cases (4 == i)) [
        | inl e ↦ rw (n1, n2, n3, e) (0, refl, ground arith)
        | inr n4 ↦ rw (n1, n2, n3, n4) (ground arith)
      ]
    ]
  ]
])

release_total_example : (t' : VarTable) × (release (array 2) table ≡ some t')
release_total_example = release_total (array 2) table

-- The claims without the one on the array.
abbrev fewer : ℕ → ℕ
fewer i = if i == 1 then 1 else if i == 3 then 1 else if i == 4 then 1 else 0

Covered-fewer : Covered table (λ i. hits i (array 2) + fewer i)
unfolding countable_id
Covered-fewer i = subst (Fits (lookup i table.var_ht)) (ground arith) (Covered-table i)

release-Covered_example : (t' : VarTable) × (release (array 2) table ≡ some t') × Covered t' fewer
release-Covered_example = release-Covered (array 2) table fewer Covered-fewer

claimed : (j : ℕ) → countable_id (string 1) ≡ some j → 0 < claims j + places j table
unfolding countable_id
claimed j e = ground arith

blank-array : (i : ℕ) → ((blank (array i)).ref_count ≡ pos 1) × (held (blank (array i)) ≡ [])
unfolding held
blank-array i = (refl, refl)

-- The entry of the table under a number below five.
found_1 : get_var_s 1 table ≡ some entry_1
unfolding lookup
found_1 = refl

found_2 : get_var_s 2 table ≡ some entry_2
unfolding lookup
found_2 = refl

found_3 : get_var_s 3 table ≡ some entry_3
unfolding lookup
found_3 = refl

found_4 : get_var_s 4 table ≡ some entry_4
unfolding lookup
found_4 = refl

array_get-set_example :
    (t' : VarTable) × (array_set (array 2) 3 (string 1) table ≡ some (t', true))
    × ((j : ℕ)
        → array_get (array 2) j t'
          ≡ some (
            add_ref (if 3 == j then string 1 else slot entry_2.items j) t',
            if 3 == j then string 1 else slot entry_2.items j,
          ))
array_get-set_example = array_get-set 2 3 (string 1) table entry_2 found_2 (omega arith)

slot_0 : countable_id (slot entry_2.items 0) ≡ some 1
unfolding countable_id
slot_0 = refl

no_hit : hits 1 (int32 5) ≡ 0
unfolding countable_id
no_hit = refl

array_set-keeps_old_example :
    (t' : VarTable) × (x' : VarS) × (array_set (array 2) 0 (int32 5) table ≡ some (t', true))
    × (get_var_s 1 t' ≡ some x')
    × (x'.ref_count ≡ pos 3)
    × (places 1 t' + 1 ≡ places 1 table)
array_set-keeps_old_example =
    array_set-keeps_old 2 0 1 (int32 5) table entry_2 entry_1 found_2 (omega arith) (omega arith)
      slot_0 no_hit found_1

Covered-int32 : Covered table (λ i. hits i (int32 5) + claims i)
unfolding countable_id
Covered-int32 i = subst (Fits (lookup i table.var_ht)) (ground arith) (Covered-table i)

dictionary_set-SetResult_example :
    SetResult table 3 entry_3
      (c_string (var_to_utf8 (string 1) table))
      (int32 5)
      claims
      (dictionary_set (dictionary 3) (string 1) (int32 5) table)
dictionary_set-SetResult_example =
    dictionary_set-SetResult 3 1 (int32 5) table entry_3 claims found_3 (omega arith) Covered-int32
