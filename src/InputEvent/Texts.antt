-- ===== src/InputEvent/Texts.antt =====
-- Keyboard and IME events of src/ppb_input_event.c, whose texts are variables of src/ppb_var.c.
use freshplayerplugin.Base.{
  ℕ, ◌+◌, ◌%◌, ◌^◌, Bool, not, Option, none, some, List, leb, ltb, if◌then◌else◌, get_elem?, take,
  ◌>>=◌,
}
use freshplayerplugin.Resource.{Registry}
use freshplayerplugin.Resource.Access.{make, look}
use freshplayerplugin.Var.{PpVar, undefined, VarTable, add_ref, release}
use freshplayerplugin.InputEvent.{
  Event, keyboard, ime, zeroed_event, event_type, is_ime_kind, get_of_class, is_of_class,
}

abbrev pub keyboard_event : ℕ → ℕ → ℕ → ℕ → PpVar → PpVar → Event → Event
keyboard_event kind time_stamp modifiers key_code text code e = record e {
  event_class = keyboard;
  kind = kind;
  time_stamp = time_stamp;
  modifiers = modifiers;
  key_code = key_code;
  text = text;
  code = code;
}

-- The references to the text and to the code are taken while the event is locked.
unfoldable pub keyboard_create :
    Option ℕ
    → ℕ
    → ℕ
    → ℕ
    → ℕ
    → PpVar
    → PpVar
    → Registry Event
    → VarTable
    → Option (Registry Event × VarTable × ℕ)
unfolding make
keyboard_create none kind time_stamp modifiers key_code text code g t = some (g, t, 0)
keyboard_create (some inst) kind time_stamp modifiers key_code text code g t = do
  (g', h) ←
      make zeroed_event (keyboard_event kind time_stamp modifiers key_code text code) event_type
        (some inst) g
  some (g', add_ref code (add_ref text t), h)

unfoldable pub keyboard_create_1_0 :
    Option ℕ
    → ℕ
    → ℕ
    → ℕ
    → ℕ
    → PpVar
    → Registry Event
    → VarTable
    → Option (Registry Event × VarTable × ℕ)
unfolding keyboard_create
keyboard_create_1_0 inst kind time_stamp modifiers key_code text g t =
    keyboard_create inst kind time_stamp modifiers key_code text undefined g t

unfoldable pub is_keyboard_input_event : ℕ → Registry Event → Option (Registry Event × Bool)
unfolding look
is_keyboard_input_event h g = is_of_class keyboard h g

unfoldable pub get_key_code : ℕ → Registry Event → Option (Registry Event × ℕ)
unfolding look
get_key_code h g = get_of_class keyboard 0 (λ e. e.key_code) h g

-- The caller gets a reference of its own; the undefined variable has none.
unfoldable pub get_character_text :
    ℕ → Registry Event → VarTable → Option (Registry Event × VarTable × PpVar)
unfolding look
get_character_text h g t = do
  (g', v) ← get_of_class keyboard undefined (λ e. e.text) h g
  some (g', add_ref v t, v)

unfoldable pub get_code : ℕ → Registry Event → PpVar
get_code h g = undefined

-- `segment_number + 1` numbers, as a uint32_t, are copied, if there are segments
abbrev pub copied_offsets : ℕ → List ℕ → Option (List ℕ)
copied_offsets n offsets = if ltb 0 n then some (take ((n + 1) % 2 ^ 32) offsets) else none

abbrev pub ime_event : ℕ → ℕ → PpVar → ℕ → List ℕ → ℕ → ℕ → ℕ → Event → Event
ime_event kind time_stamp text segment_number offsets target start end_ e = record e {
  event_class = ime;
  kind = kind;
  time_stamp = time_stamp;
  text = text;
  segment_number = segment_number;
  segment_offsets = copied_offsets segment_number offsets;
  target_segment = target;
  selection_start = start;
  selection_end = end_;
}

unfoldable pub ime_create :
    Option ℕ
    → ℕ
    → ℕ
    → PpVar
    → ℕ
    → List ℕ
    → ℕ
    → ℕ
    → ℕ
    → Registry Event
    → VarTable
    → Option (Registry Event × VarTable × ℕ)
unfolding make is_ime_kind
ime_create none kind time_stamp text segment_number offsets target start end_ g t = some (g, t, 0)
ime_create (some inst) kind time_stamp text segment_number offsets target start end_ g t =
    if not (is_ime_kind kind) then some (g, t, 0) else do
      (g', h) ←
          make zeroed_event
            (ime_event kind time_stamp text segment_number offsets target start end_) event_type
            (some inst) g
      some (g', add_ref text t, h)

unfoldable pub is_ime_input_event : ℕ → Registry Event → Option (Registry Event × Bool)
unfolding look
is_ime_input_event h g = is_of_class ime h g

unfoldable pub get_ime_text :
    ℕ → Registry Event → VarTable → Option (Registry Event × VarTable × PpVar)
unfolding look
get_ime_text h g t = do
  (g', v) ← get_of_class ime undefined (λ e. e.text) h g
  some (g', add_ref v t, v)

unfoldable pub get_segment_number : ℕ → Registry Event → Option (Registry Event × ℕ)
unfolding look
get_segment_number h g = get_of_class ime 0 (λ e. e.segment_number) h g

-- `segment_offsets[index]`, where `none` is a read through NULL or out of bounds
abbrev pub offset_at : Option (List ℕ) → ℕ → Option ℕ
offset_at none index = none
offset_at (some offsets) index = get_elem? offsets index

abbrev pub read_offset : ℕ → Event → Option ℕ
read_offset index e =
    if leb index e.segment_number then offset_at e.segment_offsets index else some 0

unfoldable pub get_segment_offset : ℕ → ℕ → Registry Event → Option (Registry Event × ℕ)
unfolding look
get_segment_offset h index g = do
  (g', read) ← get_of_class ime (some 0) (read_offset index) h g
  offset ← read
  some (g', offset)

unfoldable pub get_target_segment : ℕ → Registry Event → Option (Registry Event × ℕ)
unfolding look
get_target_segment h g = get_of_class ime 0 (λ e. e.target_segment) h g

-- What is written to the two variables of the caller; `none` if nothing is.
unfoldable pub get_selection : ℕ → Registry Event → Option (Registry Event × Option (ℕ × ℕ))
unfolding look
get_selection h g = get_of_class ime none (λ e. some (e.selection_start, e.selection_end)) h g

-- `ppb_input_event_destroy`; a release that does not end would be `none`
unfoldable pub destroy_event : Event → VarTable → Option VarTable
destroy_event e t = do t1 ← release e.code t; release e.text t1
