-- ===== src/XEvent.antt =====
-- The events of X in src/np_functions.c: NPP_HandleEvent and its handlers make input events of
-- src/ppb_input_event.c and post them to the plugin's main thread. The arithmetic of doubles, the
-- table of key codes, drawing, and what X and the input method say of a key are parameters; the shape
-- of the cursor, the focus of the input method and the catcher widget are left out.
pub mod Methods
pub mod Delivery
pub mod Sending
pub mod Pointers
use freshplayerplugin.Base.{
  ℕ, suc, ◌+◌, Bool, true, false, not, ◌&&◌, ◌||◌, Option, none, some, List, [], ◌∷◌, ◌++◌, ◌==◌,
  ltb, leb, if◌then◌else◌, Bytes, length, ◌>>=◌,
}
use Prim.Native.Nat.{bit_or}
use freshplayerplugin.Resource.{Registry, Dropped, unref, kept, destroyed}
use freshplayerplugin.Var.{PpVar, undefined, VarTable}
use freshplayerplugin.Var
use freshplayerplugin.Var.Values.{var_from_utf8}
use freshplayerplugin.InputEvent.{Point, origin, Event, Masks, minus_one}
use freshplayerplugin.InputEvent.Pointer.{mouse_create, wheel_create}
use freshplayerplugin.InputEvent.Texts.{keyboard_create_1_0, destroy_event}

-- The bits of the state of an event that are read.
pub record State : Type 0 where
  pub shift : Bool
  pub lock : Bool
  pub control : Bool
  pub mod1 : Bool
  pub mod2 : Bool
  pub mod4 : Bool
  pub button1 : Bool
  pub button2 : Bool
  pub button3 : Bool

-- `expose` is Expose or GraphicsExpose, `unknown` every other type.
pub data Kind : Type 0 where
  expose enter_notify leave_notify motion_notify button_press button_release : Kind
  key_press key_release focus_in focus_out unknown : Kind

-- The fields of the events that are read. `keysym` and `buffer` are what XLookupString finds, and
-- `taken` is that the input method has taken the key.
pub record XEvent : Type 0 where
  pub kind : Kind
  pub window : ℕ
  pub time : ℕ
  pub x : ℕ
  pub y : ℕ
  pub state : State
  pub button : ℕ
  pub normal_mode : Bool
  pub keysym : ℕ
  pub buffer : Bytes
  pub taken : Bool

-- The part of `struct pp_instance_s` that the handlers use; `ppp_input_event` and `im_context` are
-- not NULL.
pub record Target : Type 0 where
  pub id : ℕ
  pub ppp_input_event : Bool
  pub masks : Masks
  pub cursor_inside_instance : Bool
  pub last_button_release_timestamp : ℕ
  pub im_context : Bool
  pub is_fullscreen : Bool
  pub fs_wnd : ℕ

-- The tables and the instance, with what is posted to the main thread: events, and changes of focus.
pub record Input : Type 0 where
  pub registry : Registry Event
  pub vars : VarTable
  pub pp_i : Target
  pub posted : List ℕ
  pub focus_changes : List Bool

-- `scaled` is a coordinate divided by the scale of the device and rounded, `seconds` a time as a
-- double, and `xkeycode_to_pp_keycode` the table of src/keycodeconvert.c.
pub record Config : Type 0 where
  pub scaled : ℕ → ℕ
  pub seconds : ℕ → ℕ
  pub double_click_delay_ms : ℕ
  pub xkeycode_to_pp_keycode : ℕ → ℕ

-- `mod |= flag` under a condition
abbrev pub set_flag : Bool → ℕ → ℕ → ℕ
set_flag b flag mask = if b then bit_or mask flag else mask

abbrev pub is_left_flag : ℕ
is_left_flag = 2048

abbrev pub is_right_flag : ℕ
is_right_flag = 4096

unfoldable pub x_state_mask_to_pp_inputevent_modifier : State → ℕ
x_state_mask_to_pp_inputevent_modifier s = set_flag s.button3 256 (
    set_flag s.button2 128 (
      set_flag s.button1 64 (
        set_flag s.mod4 is_left_flag (
          set_flag s.mod4 8 (
            set_flag s.mod2 1024 (
              set_flag s.mod1 is_left_flag (
                set_flag s.mod1 4 (
                  set_flag s.control is_left_flag (
                    set_flag s.control 2 (
                      set_flag s.lock 512
                        (set_flag s.shift is_left_flag (set_flag s.shift 1 0))))))))))))

-- The bits of the classes of mouse, keyboard and wheel events, and whether one is asked for.
abbrev pub mouse_class : ℕ
mouse_class = 0

abbrev pub keyboard_class : ℕ
keyboard_class = 1

abbrev pub wheel_class : ℕ
wheel_class = 2

abbrev pub wants : ℕ → Target → Bool
wants k t = t.masks.event_mask k || t.masks.filtered_event_mask k

-- `ppp_handle_input_event_helper` for an event that has just been made
abbrev pub send : Option (Registry Event × ℕ) → Input → Option Input
send made w = do
  (g, event_id) ← made
  some (record w { registry = g; posted = w.posted ++ (event_id ∷ []) })

-- `PP_INPUTEVENT_TYPE_…`
abbrev pub mouse_down : ℕ
mouse_down = 0

abbrev pub mouse_up : ℕ
mouse_up = 1

abbrev pub mouse_move : ℕ
mouse_move = 2

abbrev pub mouse_enter : ℕ
mouse_enter = 3

abbrev pub mouse_leave : ℕ
mouse_leave = 4

abbrev pub context_menu : ℕ
context_menu = 10

-- a result of 1, or nothing done and 0
abbrev pub done : Option Input → Option (Input × ℕ)
done sent = do w ← sent; some (w, 1)

-- 1.0 and -1.0, and ten times that, as floats
abbrev pub one_float : ℕ
one_float = 1065353216

abbrev pub minus_one_float : ℕ
minus_one_float = 3212836864

abbrev pub ten_float : ℕ
ten_float = 1092616192

abbrev pub minus_ten_float : ℕ
minus_ten_float = 3240099840

-- the ticks and the delta of a wheel, by the number of its button
abbrev pub turned : ℕ → ℕ → ℕ → Point
turned up down button =
    if button == 4
    then record { x = 0; y = up }
    else if button == 5
    then record { x = 0; y = down }
    else if button == 6
    then record { x = down; y = 0 }
    else record { x = up; y = 0 }

abbrev pub released_at : Bool → ℕ → Input → Input
released_at pressed time w =
    if pressed
    then w
    else record w { pp_i = record w.pp_i { last_button_release_timestamp = time } }

abbrev pub is_mouse_button : ℕ → Bool
is_mouse_button b = leb 1 b && leb b 3

abbrev pub is_wheel_button : ℕ → Bool
is_wheel_button b = leb 4 b && leb b 7

module _ (c : Config) where
  abbrev pub place : XEvent → Point
  place ev = record { x = c.scaled ev.x; y = c.scaled ev.y }

  abbrev pub send_mouse : ℕ → ℕ → ℕ → XEvent → Input → Option Input
  send_mouse kind button click_count ev w =
      send
        (mouse_create (some w.pp_i.id) kind (c.seconds ev.time)
          (x_state_mask_to_pp_inputevent_modifier ev.state) button (some (place ev)) click_count
          (some origin) w.registry)
        w

  unfoldable pub handle_enter_leave_event : Bool → XEvent → Input → Option (Input × ℕ)
  unfolding x_state_mask_to_pp_inputevent_modifier mouse_create
  handle_enter_leave_event enters ev w =
      let w' = record w { pp_i = record w.pp_i { cursor_inside_instance = enters } } in
      if not ev.normal_mode || not w.pp_i.ppp_input_event || not (wants mouse_class w.pp_i)
      then some (w', 0)
      else done (send_mouse (if enters then mouse_enter else mouse_leave) minus_one 0 ev w')

  unfoldable pub handle_motion_event : XEvent → Input → Option (Input × ℕ)
  unfolding x_state_mask_to_pp_inputevent_modifier mouse_create
  handle_motion_event ev w =
      if not w.pp_i.ppp_input_event || not (wants mouse_class w.pp_i)
      then some (w, 0)
      else done (send_mouse mouse_move minus_one 0 ev w)

  unfoldable pub send_wheel : XEvent → Input → Option Input
  unfolding wheel_create x_state_mask_to_pp_inputevent_modifier
  send_wheel ev w =
      send
        (wheel_create (some w.pp_i.id) (c.seconds ev.time)
          (x_state_mask_to_pp_inputevent_modifier ev.state)
          (some (turned ten_float minus_ten_float ev.button))
          (some (turned one_float minus_one_float ev.button)) false w.registry)
        w

  -- The times of X have 32 bits, so that the sum has no overflow.
  abbrev pub click_count : XEvent → Target → ℕ
  click_count ev t =
      if ltb ev.time (c.double_click_delay_ms + t.last_button_release_timestamp) then 2 else 1

  -- the event of a button of the mouse, and the one for a context menu
  unfoldable pub send_button : Bool → XEvent → Input → Option Input
  unfolding mouse_create x_state_mask_to_pp_inputevent_modifier
  send_button pressed ev w = do
    let button = if ev.button == 1 then 0 else if ev.button == 2 then 1 else 2
    w1 ← send_mouse (if pressed then mouse_down else mouse_up) button (click_count ev w.pp_i) ev w
    let w2 = released_at pressed ev.time w1
    if not pressed && ev.button == 3 then send_mouse context_menu button 1 ev w2 else some w2

  unfoldable pub handle_button_press_release_event : Bool → XEvent → Input → Option (Input × ℕ)
  unfolding send_button send_wheel
  handle_button_press_release_event pressed ev w =
      let b = ev.button in
      if not w.pp_i.ppp_input_event
      then some (w, 0)
      else if is_mouse_button b && wants mouse_class w.pp_i
      then done (send_button pressed ev w)
      else if is_wheel_button b && wants wheel_class w.pp_i
      then done (if pressed then send_wheel ev w else some w)
      else some (w, 0)

-- the table without a reference, and what `ppb_input_event_destroy` does if it was the last one
unfoldable pub ended : Registry Event × Dropped Event → Input → Option Input
unfolding destroy_event
ended (g, kept) w = some (record w { registry = g })
ended (g, destroyed r destructor) w = do
  t ← destroy_event r.body w.vars
  some (record w { registry = g; vars = t })

-- `call_ppp_handle_input_event_comt`: the plugin's handler, if the instance is alive and has one, and
-- the end of the event with its last reference.
unfoldable pub deliver : Bool → (ℕ → Input → Input) → ℕ → Input → Option Input
unfolding ended
deliver alive handler event_id w =
    let w' = if alive && w.pp_i.ppp_input_event then handler event_id w else w in
    ended (unref event_id w'.registry) w'

unfoldable pub deliver_all : Bool → (ℕ → Input → Input) → List ℕ → Input → Option Input
unfolding deliver
deliver_all alive handler [] w = some w
deliver_all alive handler (event_id ∷ events) w = do
  w' ← deliver alive handler event_id w
  deliver_all alive handler events w'
