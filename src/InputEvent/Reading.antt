-- ===== src/InputEvent/Reading.antt =====
-- What is read from the input events of src/ppb_input_event.c that were made.
use freshplayerplugin.Base.{ℕ, Bool, false, Option, some}
use freshplayerplugin.Resource.{Res, Registry}
use freshplayerplugin.Resource.Find.{new_res}
use freshplayerplugin.Resource.Access.{look}
use freshplayerplugin.Resource.Access.Effects.{IsFree, look-free}
use freshplayerplugin.Resource.Access.Created.{Reads, Creates, make-IsFree}
use freshplayerplugin.InputEvent.{
  Class, mouse, keyboard, wheel, ime, Point, origin, Event, zeroed_event, event_type, minus_one,
  minus_one_double, wheel_kind, of_class, same_class, get_event_type, get_time_stamp, get_modifiers,
}
use freshplayerplugin.InputEvent.Pointer.{
  point_or, mouse_event, mouse_create, is_mouse_input_event, get_button, get_position,
  get_click_count, get_movement, wheel_event, wheel_create, is_wheel_input_event, get_delta,
  get_ticks, get_scroll_by_page,
}
use freshplayerplugin.InputEvent.Texts.{is_keyboard_input_event, is_ime_input_event}

-- What the operations that every event has return.
abbrev pub Common : ℕ → Registry Event → ℕ → ℕ → ℕ → Type 0
Common h g kind time_stamp modifiers =
    Reads g (get_event_type h g) kind
    × Reads g (get_time_stamp h g) time_stamp
    × Reads g (get_modifiers h g) modifiers

-- Which of the four tests of a class holds.
abbrev pub Classified : ℕ → Registry Event → Class → Type 0
Classified h g c =
    Reads g (is_mouse_input_event h g) (same_class c mouse)
    × Reads g (is_keyboard_input_event h g) (same_class c keyboard)
    × Reads g (is_wheel_input_event h g) (same_class c wheel)
    × Reads g (is_ime_input_event h g) (same_class c ime)

abbrev pub MouseFields : ℕ → Registry Event → ℕ → Point → ℕ → Point → Type 0
MouseFields h g button position click_count movement =
    Reads g (get_button h g) button
    × Reads g (get_position h g) position
    × Reads g (get_click_count h g) click_count
    × Reads g (get_movement h g) movement

abbrev pub WheelFields : ℕ → Registry Event → Point → Point → Bool → Type 0
WheelFields h g delta ticks by_page =
    Reads g (get_delta h g) delta
    × Reads g (get_ticks h g) ticks
    × Reads g (get_scroll_by_page h g) by_page

module _ (h : ℕ) (q : Res Event) (g : Registry Event) (free : IsFree event_type h q g) where
  look-Reads {ℓ} :
      {B : Type ℓ}
      → (absent : B) (f : Event → B) → Reads g (look event_type h g absent f) (f q.body)
  look-Reads absent f = look-free event_type h q g absent f free

  pub found-Common : Common h g q.body.kind q.body.time_stamp q.body.modifiers
  unfolding get_event_type get_time_stamp get_modifiers
  found-Common = (
    look-Reads minus_one (λ e. e.kind),
    look-Reads minus_one_double (λ e. e.time_stamp),
    look-Reads 0 (λ e. e.modifiers),
  )

  pub found-Classified : Classified h g q.body.event_class
  unfolding is_mouse_input_event is_keyboard_input_event is_wheel_input_event is_ime_input_event
  found-Classified = (
    look-Reads false (λ e. same_class e.event_class mouse),
    look-Reads false (λ e. same_class e.event_class keyboard),
    look-Reads false (λ e. same_class e.event_class wheel),
    look-Reads false (λ e. same_class e.event_class ime),
  )

  pub found-MouseFields :
      MouseFields h g
        (of_class mouse minus_one (λ e. e.mouse_button) q.body)
        (of_class mouse origin (λ e. e.mouse_position) q.body)
        (of_class mouse 0 (λ e. e.click_count) q.body)
        (of_class mouse origin (λ e. e.mouse_movement) q.body)
  unfolding get_button get_position get_click_count get_movement
  found-MouseFields = (
    look-Reads minus_one (of_class mouse minus_one (λ e. e.mouse_button)),
    look-Reads origin (of_class mouse origin (λ e. e.mouse_position)),
    look-Reads 0 (of_class mouse 0 (λ e. e.click_count)),
    look-Reads origin (of_class mouse origin (λ e. e.mouse_movement)),
  )

  pub found-WheelFields :
      WheelFields h g
        (of_class wheel origin (λ e. e.wheel_delta) q.body)
        (of_class wheel origin (λ e. e.wheel_ticks) q.body)
        (of_class wheel false (λ e. e.scroll_by_page) q.body)
  unfolding get_delta get_ticks get_scroll_by_page
  found-WheelFields = (
    look-Reads origin (of_class wheel origin (λ e. e.wheel_delta)),
    look-Reads origin (of_class wheel origin (λ e. e.wheel_ticks)),
    look-Reads false (of_class wheel false (λ e. e.scroll_by_page)),
  )

-- A mouse event that is made for an instance is a new resource, and no other one changes. It is of
-- no other class; each operation for events or for mouse events returns what the event was made
-- with, zeros for the points that were not given, and the ones for wheel events their defaults.
-- None of them changes a resource.
pub mouse_create-Reads :
    (inst kind time_stamp modifiers button : ℕ) (position : Option Point) (click_count : ℕ)
    (movement : Option Point) (g : Registry Event)
    → let h = g.res_tbl_next in
      let made =
        mouse_create (some inst) kind time_stamp modifiers button position click_count movement g in
      (g' : Registry Event) × Creates g made g'
      × Common h g' kind time_stamp modifiers
      × Classified h g' mouse
      × MouseFields h g' button (point_or position) click_count (point_or movement)
      × WheelFields h g' origin origin false
unfolding mouse_create
mouse_create-Reads inst kind time_stamp modifiers button position click_count movement g =
    let init : Event → Event =
      mouse_event kind time_stamp modifiers button position click_count movement in
    let (g', is, free) = make-IsFree zeroed_event init event_type inst g in
    let h : ℕ = g.res_tbl_next in
    let q : Res Event = new_res (init zeroed_event) event_type inst h in
    (
      g',
      is,
      found-Common h q g' free,
      found-Classified h q g' free,
      found-MouseFields h q g' free,
      found-WheelFields h q g' free,
    )

-- A wheel event that is made for an instance is a new resource of the type of wheel events and of no
-- other class, and no other resource changes; the operations for events and for wheel events return
-- what it was made with, and the ones for mouse events their defaults. None of them changes a
-- resource.
pub wheel_create-Reads :
    (inst time_stamp modifiers : ℕ) (delta ticks : Option Point) (by_page : Bool)
    (g : Registry Event)
    → let h = g.res_tbl_next in
      (g' : Registry Event) × Creates g
        (wheel_create (some inst) time_stamp modifiers delta ticks by_page g)
        g'
      × Common h g' wheel_kind time_stamp modifiers
      × Classified h g' wheel
      × MouseFields h g' minus_one origin 0 origin
      × WheelFields h g' (point_or delta) (point_or ticks) by_page
unfolding wheel_create
wheel_create-Reads inst time_stamp modifiers delta ticks by_page g =
    let init : Event → Event = wheel_event time_stamp modifiers delta ticks by_page in
    let (g', is, free) = make-IsFree zeroed_event init event_type inst g in
    let h : ℕ = g.res_tbl_next in
    let q : Res Event = new_res (init zeroed_event) event_type inst h in
    (
      g',
      is,
      found-Common h q g' free,
      found-Classified h q g' free,
      found-MouseFields h q g' free,
      found-WheelFields h q g' free,
    )
