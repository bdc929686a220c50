-- ===== src/XEvent/Methods.antt =====
-- The events of keys and of the input method in src/np_functions.c, changes of focus, and
-- NPP_HandleEvent over all.
use freshplayerplugin.Base.{
  ℕ, zero, suc, ◌+◌, Bool, true, false, not, ◌&&◌, ◌||◌, Option, some, [], ◌∷◌, ◌++◌, ◌==◌, leb,
  if◌then◌else◌, Bytes, length, drop, ◌>>=◌,
}
use Prim.Native.Nat.{bit_and, bit_or}
use freshplayerplugin.Resource.{Registry}
use freshplayerplugin.Var.{PpVar, undefined, VarTable}
use freshplayerplugin.Var
use freshplayerplugin.Var.Values.{var_from_utf8}
use freshplayerplugin.InputEvent.{Event, minus_one}
use freshplayerplugin.InputEvent.Texts.{keyboard_create_1_0, ime_create}
use freshplayerplugin.XEvent.{
  Kind, expose, enter_notify, leave_notify, motion_notify, button_press, button_release, key_press,
  key_release, focus_in, focus_out, unknown, XEvent, Input, Config,
  x_state_mask_to_pp_inputevent_modifier, is_left_flag, is_right_flag, wants, keyboard_class, done,
  handle_enter_leave_event, handle_motion_event, handle_button_press_release_event,
}

-- the same for an event that holds texts
abbrev pub send_text : Option (Registry Event × VarTable × ℕ) → Input → Option Input
send_text made w = do
  (g, t, event_id) ← made
  some (record w { registry = g; vars = t; posted = w.posted ++ (event_id ∷ []) })

-- `PP_INPUTEVENT_TYPE_…`
abbrev pub key_down : ℕ
key_down = 7

abbrev pub key_up : ℕ
key_up = 8

abbrev pub char_kind : ℕ
char_kind = 9

abbrev pub composition_start : ℕ
composition_start = 11

abbrev pub composition_update : ℕ
composition_update = 12

abbrev pub composition_end : ℕ
composition_end = 13

abbrev pub ime_text : ℕ
ime_text = 14

unfoldable pub is_printable_sequence : Bytes → Bool
is_printable_sequence [] = false
is_printable_sequence (u ∷ []) = leb 0x20 u && leb u 0x7e
is_printable_sequence (u ∷ v ∷ s) = true

-- The keysyms of the modifiers of the left and of the right hand: XK_Shift_L, XK_Control_L, XK_Meta_L,
-- XK_Alt_L and XK_Super_L, each followed by its right one.
abbrev pub is_left : ℕ → Bool
is_left k = k == 0xffe1 || (k == 0xffe3 || (k == 0xffe7 || (k == 0xffe9 || k == 0xffeb)))

abbrev pub is_right : ℕ → Bool
is_right k = k == 0xffe2 || (k == 0xffe4 || (k == 0xffe8 || (k == 0xffea || k == 0xffec)))

unfoldable pub get_left_right_pp_flag : ℕ → ℕ
get_left_right_pp_flag k =
    if is_left k then is_left_flag else if is_right k then is_right_flag else 0

-- `mod & ~flag` for the flag of the left hand, which stands out of the bits of a number below 2^32
abbrev pub all_but_left : ℕ
all_but_left = 4294965247

unfoldable pub key_modifiers : XEvent → ℕ
unfolding x_state_mask_to_pp_inputevent_modifier get_left_right_pp_flag
key_modifiers ev =
    let mask =
      bit_or (x_state_mask_to_pp_inputevent_modifier ev.state) (get_left_right_pp_flag ev.keysym) in
    if bit_and mask is_right_flag == 0 then mask else bit_and mask all_but_left

module _ (c : Config) where
  -- the event with the text of a key
  unfoldable pub send_char : XEvent → Input → Option Input
  unfolding key_modifiers keyboard_create_1_0 var_from_utf8
  send_char ev w = do
    (t, text) ← var_from_utf8 (some ev.buffer) (length ev.buffer) w.vars
    (g, t1, event_id) ←
        keyboard_create_1_0 (some w.pp_i.id) char_kind (c.seconds ev.time) (key_modifiers ev)
          (c.xkeycode_to_pp_keycode ev.keysym) text w.registry t
    t2 ← Var.release text t1
    send_text (some (g, t2, event_id)) w

  unfoldable pub send_key : Bool → XEvent → Input → Option Input
  unfolding key_modifiers keyboard_create_1_0 is_printable_sequence send_char
  send_key pressed ev w = do
    w1 ←
        send_text
          (keyboard_create_1_0 (some w.pp_i.id) (if pressed then key_down else key_up)
            (c.seconds ev.time) (key_modifiers ev) (c.xkeycode_to_pp_keycode ev.keysym) undefined
            w.registry w.vars)
          w
    if pressed && is_printable_sequence ev.buffer then send_char ev w1 else some w1

  unfoldable pub handle_key_press_release_event : Bool → XEvent → Input → Option (Input × ℕ)
  unfolding send_key
  handle_key_press_release_event pressed ev w =
      if not w.pp_i.ppp_input_event || not (wants keyboard_class w.pp_i)
      then some (w, 0)
      else if w.pp_i.im_context && (pressed && ev.taken)
      then some (w, 1)
      else done (send_key pressed ev w)

  -- the call on the main thread, which has its own function
  unfoldable pub handle_focus_in_out_event : Bool → Input → Option (Input × ℕ)
  handle_focus_in_out_event has_focus w =
      some (record w { focus_changes = w.focus_changes ++ (has_focus ∷ []) }, 1)

  module _ (quirk_plugin_missing : Bool) (draw : XEvent → Input → Option (Input × ℕ)) where
    -- the switch on the type of an event
    abbrev pub dispatch : Kind → XEvent → Input → Option (Input × ℕ)
    dispatch expose ev w = draw ev w
    dispatch enter_notify ev w = handle_enter_leave_event c true ev w
    dispatch leave_notify ev w = handle_enter_leave_event c false ev w
    dispatch motion_notify ev w = handle_motion_event c ev w
    dispatch button_press ev w = handle_button_press_release_event c true ev w
    dispatch button_release ev w = handle_button_press_release_event c false ev w
    dispatch key_press ev w = handle_key_press_release_event true ev w
    dispatch key_release ev w = handle_key_press_release_event false ev w
    dispatch focus_in ev w = handle_focus_in_out_event true w
    dispatch focus_out ev w = handle_focus_in_out_event false w
    dispatch unknown ev w = some (w, 0)

    -- for an instance that is there; the drawing of the placeholder is left out
    unfoldable pub np_handle_event : XEvent → Input → Option (Input × ℕ)
    unfolding handle_enter_leave_event handle_motion_event handle_button_press_release_event
        handle_key_press_release_event handle_focus_in_out_event
    np_handle_event ev w =
        if quirk_plugin_missing || (w.pp_i.is_fullscreen && not (w.pp_i.fs_wnd == ev.window))
        then some (w, 0)
        else dispatch ev.kind ev w

-- `call_ppp_did_change_focus_comt` for an instance that is alive: the count of changes to ignore, and
-- whether the plugin is told, if it has the function
unfoldable pub did_change_focus : ℕ → Bool → ℕ × Bool
did_change_focus zero has_function = (zero, has_function)
did_change_focus (suc ignored) has_function = (ignored, false)

-- What the input method says. The time of its events is 0.
unfoldable pub im_preedit_start : Input → Option Input
unfolding ime_create
im_preedit_start w =
    send_text
      (ime_create (some w.pp_i.id) composition_start 0 undefined 0 [] 0 0 0 w.registry w.vars) w

-- `g_utf8_next_char` a number of times, by the lengths of characters by their first bytes
unfoldable pub bytes_before : (ℕ → ℕ) → ℕ → Bytes → ℕ
bytes_before char_len zero s = 0
bytes_before char_len (suc k) [] = char_len 0 + bytes_before char_len k []
bytes_before char_len (suc k) (u ∷ s) =
    char_len u + bytes_before char_len k (drop (char_len u) (u ∷ s))

-- an event with a text that is then given back
abbrev pub with_text : Bytes → (PpVar → Input → Option Input) → Input → Option Input
with_text str act w = do
  (t, text) ← var_from_utf8 (some str) (length str) w.vars
  w1 ← act text (record w { vars = t })
  t1 ← Var.release text w1.vars
  some (record w1 { vars = t1 })

unfoldable pub im_preedit_changed : (ℕ → ℕ) → Bytes → ℕ → Input → Option Input
unfolding ime_create bytes_before var_from_utf8
im_preedit_changed char_len preedit cursor_pos w =
    with_text preedit
      (λ text w.
        let at_byte = bytes_before char_len cursor_pos preedit in
        send_text
          (ime_create (some w.pp_i.id) composition_update 0 text 1 (0 ∷ length preedit ∷ [])
            minus_one at_byte at_byte w.registry w.vars)
          w)
      w

unfoldable pub im_commit : Bytes → Input → Option Input
unfolding ime_create var_from_utf8
im_commit str w =
    with_text str
      (λ text w. do
        let n = length str
        let offsets = 0 ∷ n ∷ []
        w1 ←
            send_text
              (ime_create (some w.pp_i.id) composition_end 0 text 1 offsets 0 n n w.registry w.vars)
              w
        send_text (ime_create (some w1.pp_i.id) ime_text 0 text 1 offsets 0 n n w1.registry w1.vars)
            w1)
      w
