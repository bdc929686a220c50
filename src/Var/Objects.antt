-- ===== src/Var/Objects.antt =====
-- Scriptable objects of src/ppb_var.c: checks on the tags, then a call through the object's class.
-- A class is code of the plugin or of the browser: what its functions do is a parameter, a record
-- of optional functions at each class address. `none` as a whole is a NULL dereference.
use freshplayerplugin.Base.{ℕ, Bool, false, Option, none, some, List, ◌==◌, if◌then◌else◌, ◌>>=◌}
use freshplayerplugin.Var.{PpVar, undefined, string, object, VarTable, blank, get_var_s, create}

-- `struct PPP_Class_Deprecated`: each function takes the object's data, may change the table, and
-- may fill `exception`, which is part of its result.
pub record Class : Type 0 where
  pub has_property : Option (ℕ → PpVar → VarTable → VarTable × Bool)
  pub has_method : Option (ℕ → PpVar → VarTable → VarTable × Bool)
  pub get_property : Option (ℕ → PpVar → VarTable → VarTable × PpVar)
  pub set_property : Option (ℕ → PpVar → PpVar → VarTable → VarTable)
  pub remove_property : Option (ℕ → PpVar → VarTable → VarTable)
  pub call : Option (ℕ → PpVar → List PpVar → VarTable → VarTable × PpVar)
  pub construct : Option (ℕ → List PpVar → VarTable → VarTable × PpVar)

unfoldable pub create_object : ℕ → ℕ → VarTable → Option (VarTable × PpVar)
create_object object_class object_data t = do
  (t', i) ←
      create (λ i. record (blank (object i)) { obj_class = object_class; obj_data = object_data }) t
  some (t', object i)

-- The class's data if it is an instance of the class.
unfoldable pub is_instance_of : PpVar → ℕ → VarTable → Option (Option ℕ)
is_instance_of (object i) object_class t = do
  e ← get_var_s i t
  some (if e.obj_class == object_class then some e.obj_data else none)
is_instance_of _ object_class t = some none

module _ (classes : ℕ → Class) where
  unfoldable pub var_has_property : PpVar → PpVar → VarTable → Option (VarTable × Bool)
  var_has_property (object i) (string j) t = do
    e ← get_var_s i t
    some (elim (classes e.obj_class).has_property [
      | none ↦ (t, false)
      | some f ↦ f e.obj_data (string j) t
    ])
  var_has_property _ _ t = some (t, false)

  unfoldable pub var_has_method : PpVar → PpVar → VarTable → Option (VarTable × Bool)
  var_has_method (object i) (string j) t = do
    e ← get_var_s i t
    some (elim (classes e.obj_class).has_method [
      | none ↦ (t, false)
      | some f ↦ f e.obj_data (string j) t
    ])
  var_has_method _ _ t = some (t, false)

  unfoldable pub var_get_property : PpVar → PpVar → VarTable → Option (VarTable × PpVar)
  var_get_property (object i) (string j) t = do
    e ← get_var_s i t
    some (elim (classes e.obj_class).get_property [
      | none ↦ (t, undefined)
      | some f ↦ f e.obj_data (string j) t
    ])
  var_get_property _ _ t = some (t, undefined)

  unfoldable pub var_set_property : PpVar → PpVar → PpVar → VarTable → Option VarTable
  var_set_property (object i) (string j) value t = do
    e ← get_var_s i t
    some (elim (classes e.obj_class).set_property [
      | none ↦ t
      | some f ↦ f e.obj_data (string j) value t
    ])
  var_set_property _ _ value t = some t

  unfoldable pub var_remove_property : PpVar → PpVar → VarTable → Option VarTable
  var_remove_property (object i) (string j) t = do
    e ← get_var_s i t
    some (elim (classes e.obj_class).remove_property [
      | none ↦ t
      | some f ↦ f e.obj_data (string j) t
    ])
  var_remove_property _ _ t = some t

  unfoldable pub var_call : PpVar → PpVar → List PpVar → VarTable → Option (VarTable × PpVar)
  var_call (object i) (string j) argv t = do
    e ← get_var_s i t
    some (elim (classes e.obj_class).call [
      | none ↦ (t, undefined)
      | some f ↦ f e.obj_data (string j) argv t
    ])
  var_call _ _ argv t = some (t, undefined)

  unfoldable pub var_construct : PpVar → List PpVar → VarTable → Option (VarTable × PpVar)
  var_construct (object i) argv t = do
    e ← get_var_s i t
    some (elim (classes e.obj_class).construct [
      | none ↦ (t, undefined)
      | some f ↦ f e.obj_data argv t
    ])
  var_construct _ argv t = some (t, undefined)
