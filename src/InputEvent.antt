-- ===== src/InputEvent.antt =====
-- src/ppb_input_event.c: input events as resources of src/pp_resource.c, and the classes of events
-- that an instance asks for. 32-bit numbers and doubles stand as their bit patterns, and a mask of
-- classes as its bits. The trace wrappers are left out.
pub mod Pointer
pub mod Texts
pub mod Reading
pub mod Segments
pub mod Claims
use freshplayerplugin.Base.{
  ℕ, Bool, true, false, not, ◌&&◌, ◌||◌, Option, none, some, List, [], ◌∷◌, ◌==◌, if◌then◌else◌,
}
use freshplayerplugin.Resource.{Registry, get_type}
use freshplayerplugin.Resource.Access.{look}
use freshplayerplugin.Var.{PpVar, undefined}

abbrev pub event_type : ℕ
event_type = 12

-- `struct PP_Point` and `struct PP_FloatPoint`
pub record Point : Type 0 where
  pub x : ℕ
  pub y : ℕ

abbrev pub origin : Point
origin = record { x = 0; y = 0 }

-- `PP_INPUTEVENT_CLASS_…`; `no_class` is the 0 of new memory
pub data Class : Type 0 where
  no_class mouse keyboard wheel ime : Class

abbrev pub same_class : Class → Class → Bool
same_class no_class no_class = true
same_class mouse mouse = true
same_class keyboard keyboard = true
same_class wheel wheel = true
same_class ime ime = true
same_class _ _ = false

-- `struct pp_input_event_s` behind the common fields
pub record Event : Type 0 where
  pub event_class : Class
  pub kind : ℕ
  pub time_stamp : ℕ
  pub modifiers : ℕ
  pub mouse_button : ℕ
  pub mouse_position : Point
  pub click_count : ℕ
  pub mouse_movement : Point
  pub wheel_delta : Point
  pub wheel_ticks : Point
  pub scroll_by_page : Bool
  pub key_code : ℕ
  pub code : PpVar
  pub text : PpVar
  pub segment_number : ℕ
  pub segment_offsets : Option (List ℕ)
  pub target_segment : ℕ
  pub selection_start : ℕ
  pub selection_end : ℕ

abbrev pub zeroed_event : Event
zeroed_event = record {
  event_class = no_class;
  kind = 0;
  time_stamp = 0;
  modifiers = 0;
  mouse_button = 0;
  mouse_position = origin;
  click_count = 0;
  mouse_movement = origin;
  wheel_delta = origin;
  wheel_ticks = origin;
  scroll_by_page = false;
  key_code = 0;
  code = undefined;
  text = undefined;
  segment_number = 0;
  segment_offsets = none;
  target_segment = 0;
  selection_start = 0;
  selection_end = 0;
}

-- the bit patterns of -1 and of -1.0
abbrev pub minus_one : ℕ
minus_one = 4294967295

abbrev pub minus_one_double : ℕ
minus_one_double = 13830554455654793216

-- `PP_INPUTEVENT_TYPE_WHEEL`, and the types of an IME event
abbrev pub wheel_kind : ℕ
wheel_kind = 5

unfoldable pub is_ime_kind : ℕ → Bool
is_ime_kind k = k == 11 || (k == 12 || (k == 13 || k == 14))

unfoldable pub is_input_event : ℕ → Registry Event → Bool
is_input_event h g = get_type h g == event_type

unfoldable pub get_event_type : ℕ → Registry Event → Option (Registry Event × ℕ)
unfolding look
get_event_type h g = look event_type h g minus_one (λ e. e.kind)

unfoldable pub get_time_stamp : ℕ → Registry Event → Option (Registry Event × ℕ)
unfolding look
get_time_stamp h g = look event_type h g minus_one_double (λ e. e.time_stamp)

unfoldable pub get_modifiers : ℕ → Registry Event → Option (Registry Event × ℕ)
unfolding look
get_modifiers h g = look event_type h g 0 (λ e. e.modifiers)

-- The part that the getters of a class share: the default for an event of another class.
abbrev pub of_class {ℓ} : {B : Type ℓ} → Class → B → (Event → B) → Event → B
of_class c absent f e = if not (same_class e.event_class c) then absent else f e

abbrev pub get_of_class {ℓ} :
    {B : Type ℓ} → Class → B → (Event → B) → ℕ → Registry Event → Option (Registry Event × B)
get_of_class c absent f h g = look event_type h g absent (of_class c absent f)

abbrev pub is_of_class : Class → ℕ → Registry Event → Option (Registry Event × Bool)
is_of_class c h g = look event_type h g false (λ e. same_class e.event_class c)

-- The masks of an instance.
pub record Masks : Type 0 where
  pub event_mask : ℕ → Bool
  pub filtered_event_mask : ℕ → Bool

-- The instance is `none` if `tables_get_pp_instance` does not find it; the Boolean is PP_OK.
unfoldable pub request_input_events : (ℕ → Bool) → Option Masks → Option Masks × Bool
request_input_events classes none = (none, false)
request_input_events classes (some m) =
    (some (record m { event_mask = λ k. m.event_mask k || classes k }), true)

unfoldable pub request_filtering_input_events : (ℕ → Bool) → Option Masks → Option Masks × Bool
request_filtering_input_events classes none = (none, false)
request_filtering_input_events classes (some m) =
    (some (record m { filtered_event_mask = λ k. m.filtered_event_mask k || classes k }), true)

unfoldable pub clear_input_event_request : (ℕ → Bool) → Option Masks → Option Masks
clear_input_event_request classes none = none
clear_input_event_request classes (some m) = some (record m {
  event_mask = λ k. m.event_mask k && not (classes k);
  filtered_event_mask = λ k. m.filtered_event_mask k && not (classes k);
})
