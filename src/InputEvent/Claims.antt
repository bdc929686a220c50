-- ===== src/InputEvent/Claims.antt =====
-- The references to variables that the keyboard events of src/ppb_input_event.c hold.
use freshplayerplugin.Base.{ℕ, ◌+◌, ◌<◌, ◌≡◌, some}
use freshplayerplugin.Var.{PpVar, VarTable, countable_id}
use freshplayerplugin.Var.Claims.{hits, places}

-- The caller may pass the variable: it has a claim on it, or a container holds it.
abbrev pub IsHeld : VarTable → (ℕ → ℕ) → PpVar → Type 0
IsHeld t c v = (j : ℕ) → countable_id v ≡ some j → 0 < c j + places j t

-- Both references, of the text and of the code.
abbrev pub with_both : PpVar → PpVar → (ℕ → ℕ) → ℕ → ℕ
with_both text code c i = hits i code + (hits i text + c i)
