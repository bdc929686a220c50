-- ===== src/InputEvent/Pointer.antt =====
-- Mouse and wheel events of src/ppb_input_event.c, and the stubs for touch events.
use freshplayerplugin.Base.{ℕ, Bool, true, false, Option, none, some}
use freshplayerplugin.Resource.{Registry}
use freshplayerplugin.Resource.Access.{make, look}
use freshplayerplugin.InputEvent.{
  Point, origin, Event, mouse, wheel, zeroed_event, event_type, minus_one, wheel_kind, get_of_class,
  is_of_class,
}

-- `p ? *p : 0`
abbrev pub point_or : Option Point → Point
point_or none = origin
point_or (some p) = p

abbrev pub mouse_event : ℕ → ℕ → ℕ → ℕ → Option Point → ℕ → Option Point → Event → Event
mouse_event kind time_stamp modifiers button position click_count movement e = record e {
  event_class = mouse;
  kind = kind;
  time_stamp = time_stamp;
  modifiers = modifiers;
  mouse_button = button;
  mouse_position = point_or position;
  click_count = click_count;
  mouse_movement = point_or movement;
}

unfoldable pub mouse_create :
    Option ℕ
    → ℕ
    → ℕ
    → ℕ
    → ℕ
    → Option Point
    → ℕ
    → Option Point
    → Registry Event
    → Option (Registry Event × ℕ)
unfolding make
mouse_create inst kind time_stamp modifiers button position click_count movement g =
    make zeroed_event (mouse_event kind time_stamp modifiers button position click_count movement)
      event_type inst g

unfoldable pub is_mouse_input_event : ℕ → Registry Event → Option (Registry Event × Bool)
unfolding look
is_mouse_input_event h g = is_of_class mouse h g

unfoldable pub get_button : ℕ → Registry Event → Option (Registry Event × ℕ)
unfolding look
get_button h g = get_of_class mouse minus_one (λ e. e.mouse_button) h g

unfoldable pub get_position : ℕ → Registry Event → Option (Registry Event × Point)
unfolding look
get_position h g = get_of_class mouse origin (λ e. e.mouse_position) h g

unfoldable pub get_click_count : ℕ → Registry Event → Option (Registry Event × ℕ)
unfolding look
get_click_count h g = get_of_class mouse 0 (λ e. e.click_count) h g

unfoldable pub get_movement : ℕ → Registry Event → Option (Registry Event × Point)
unfolding look
get_movement h g = get_of_class mouse origin (λ e. e.mouse_movement) h g

abbrev pub wheel_event : ℕ → ℕ → Option Point → Option Point → Bool → Event → Event
wheel_event time_stamp modifiers delta ticks by_page e = record e {
  event_class = wheel;
  kind = wheel_kind;
  time_stamp = time_stamp;
  modifiers = modifiers;
  wheel_delta = point_or delta;
  wheel_ticks = point_or ticks;
  scroll_by_page = by_page;
}

unfoldable pub wheel_create :
    Option ℕ
    → ℕ
    → ℕ
    → Option Point
    → Option Point
    → Bool
    → Registry Event
    → Option (Registry Event × ℕ)
unfolding make
wheel_create inst time_stamp modifiers delta ticks by_page g =
    make zeroed_event (wheel_event time_stamp modifiers delta ticks by_page) event_type inst g

unfoldable pub is_wheel_input_event : ℕ → Registry Event → Option (Registry Event × Bool)
unfolding look
is_wheel_input_event h g = is_of_class wheel h g

unfoldable pub get_delta : ℕ → Registry Event → Option (Registry Event × Point)
unfolding look
get_delta h g = get_of_class wheel origin (λ e. e.wheel_delta) h g

unfoldable pub get_ticks : ℕ → Registry Event → Option (Registry Event × Point)
unfolding look
get_ticks h g = get_of_class wheel origin (λ e. e.wheel_ticks) h g

unfoldable pub get_scroll_by_page : ℕ → Registry Event → Option (Registry Event × Bool)
unfolding look
get_scroll_by_page h g = get_of_class wheel false (λ e. e.scroll_by_page) h g

-- the stubs
unfoldable pub touch_create : Registry Event → Registry Event × ℕ
touch_create g = (g, 0)

unfoldable pub is_touch_input_event : ℕ → Registry Event → Bool
is_touch_input_event h g = true

unfoldable pub get_touch_count : ℕ → Registry Event → ℕ
get_touch_count h g = 0
