-- ===== src/XEvent/Pointers.antt =====
-- What the handlers of src/np_functions.c for the pointer post, and its way to the plugin.
use freshplayerplugin.Base.{
  ℕ, ◌≡◌, refl, ◌∙◌, Bool, true, false, not, ◌&&◌, ◌||◌, Option, some, [], ◌∷◌, ◌++◌, ◌==◌,
  if◌then◌else◌,
}
use freshplayerplugin.Resource.{find}
use freshplayerplugin.InputEvent.{minus_one}
use freshplayerplugin.XEvent.{
  Kind, enter_notify, leave_notify, motion_notify, button_press, button_release, XEvent, Input,
  Config, send_mouse, mouse_enter, mouse_leave, mouse_move, mouse_class, wants, done, send_wheel,
  send_button, click_count, released_at, mouse_down, mouse_up, context_menu, wheel_class,
  is_mouse_button, is_wheel_button, handle_enter_leave_event, handle_motion_event,
  handle_button_press_release_event, deliver_all,
}
use freshplayerplugin.XEvent.Delivery.{IsQuiet, IsFresh, deliver_all-Pending}
use freshplayerplugin.XEvent.Methods.{np_handle_event, dispatch}
use freshplayerplugin.XEvent.Sending.{
  IsDealt, nothing-IsDealt, either, sent-IsDealt, first-IsDealt, maybe_second-IsDealt,
  send_mouse-IsSent, send_wheel-IsSent,
}

-- the events of the pointer
abbrev pub is_pointer : Kind → Bool
is_pointer enter_notify = true
is_pointer leave_notify = true
is_pointer motion_notify = true
is_pointer button_press = true
is_pointer button_release = true
is_pointer _ = false

module _ (c : Config) where
  handle_enter_leave_event-IsDealt :
      (enters : Bool) (ev : XEvent) (w : Input)
      → w.posted ≡ []
      → IsFresh w.registry
      → IsDealt w.registry w.vars (handle_enter_leave_event c enters ev w)
  unfolding handle_enter_leave_event
  handle_enter_leave_event-IsDealt enters ev w e fresh =
      let w' : Input = record w { pp_i = record w.pp_i { cursor_inside_instance = enters } } in
      let kind : ℕ = if enters then mouse_enter else mouse_leave in
      let test : Bool =
        not ev.normal_mode || not w.pp_i.ppp_input_event || not (wants mouse_class w.pp_i) in
      either test (nothing-IsDealt w' e 0) (
        sent-IsDealt w' (send_mouse c kind minus_one 0 ev w') e fresh
          (send_mouse-IsSent c kind minus_one 0 ev w'))

  handle_motion_event-IsDealt :
      (ev : XEvent) (w : Input)
      → w.posted ≡ []
      → IsFresh w.registry
      → IsDealt w.registry w.vars (handle_motion_event c ev w)
  unfolding handle_motion_event
  handle_motion_event-IsDealt ev w e fresh =
      either (not w.pp_i.ppp_input_event || not (wants mouse_class w.pp_i)) (nothing-IsDealt w e 0)
        (sent-IsDealt w (send_mouse c mouse_move minus_one 0 ev w) e fresh
          (send_mouse-IsSent c mouse_move minus_one 0 ev w))

  send_button-IsDealt :
      (pressed : Bool) (ev : XEvent) (w : Input)
      → w.posted ≡ []
      → IsFresh w.registry
      → IsDealt w.registry w.vars (done (send_button c pressed ev w))
  unfolding send_button
  send_button-IsDealt true ev w e fresh =
      let button : ℕ = if ev.button == 1 then 0 else if ev.button == 2 then 1 else 2 in
      let s = send_mouse-IsSent c mouse_down button (click_count c ev w.pp_i) ev w in
      let w1 : Input = record w {
        registry = s.table;
        posted = w.posted ++ (w.registry.res_tbl_next ∷ []);
      } in
      rw s.is (first-IsDealt w w1 (rw e refl) refl fresh s.made)
  send_button-IsDealt false ev w e fresh =
      let button : ℕ = if ev.button == 1 then 0 else if ev.button == 2 then 1 else 2 in
      let s = send_mouse-IsSent c mouse_up button (click_count c ev w.pp_i) ev w in
      let w2 : Input =
        released_at false ev.time
          (record w { registry = s.table; posted = w.posted ++ (w.registry.res_tbl_next ∷ []) }) in
      rw s.is (
        maybe_second-IsDealt w w2 (send_mouse c context_menu button 1 ev w2) (ev.button == 3)
          (rw e refl) refl fresh s.made (send_mouse-IsSent c context_menu button 1 ev w2))

  wheel_turn-IsDealt :
      (pressed : Bool) (ev : XEvent) (w : Input)
      → w.posted ≡ []
      → IsFresh w.registry
      → IsDealt w.registry w.vars (done (if pressed then send_wheel c ev w else some w))
  wheel_turn-IsDealt true ev w e fresh =
      sent-IsDealt w (send_wheel c ev w) e fresh (send_wheel-IsSent c ev w)
  wheel_turn-IsDealt false ev w e fresh = nothing-IsDealt w e 1

  handle_button_press_release_event-IsDealt :
      (pressed : Bool) (ev : XEvent) (w : Input)
      → w.posted ≡ []
      → IsFresh w.registry
      → IsDealt w.registry w.vars (handle_button_press_release_event c pressed ev w)
  unfolding handle_button_press_release_event
  handle_button_press_release_event-IsDealt pressed ev w e fresh =
      let b = ev.button in
      either (not w.pp_i.ppp_input_event) (nothing-IsDealt w e 0) (
        either (is_mouse_button b && wants mouse_class w.pp_i)
          (send_button-IsDealt pressed ev w e fresh)
          (either (is_wheel_button b && wants wheel_class w.pp_i)
            (wheel_turn-IsDealt pressed ev w e fresh) (nothing-IsDealt w e 0)))

  module _ (quirk : Bool) (draw : XEvent → Input → Option (Input × ℕ)) where
    dispatch-IsDealt :
        (kind : Kind) (ev : XEvent) (w : Input)
        → is_pointer kind ≡ true
        → w.posted ≡ []
        → IsFresh w.registry
        → IsDealt w.registry w.vars (dispatch c quirk draw kind ev w)
    dispatch-IsDealt enter_notify ev w k e fresh =
        handle_enter_leave_event-IsDealt true ev w e fresh
    dispatch-IsDealt leave_notify ev w k e fresh =
        handle_enter_leave_event-IsDealt false ev w e fresh
    dispatch-IsDealt motion_notify ev w k e fresh = handle_motion_event-IsDealt ev w e fresh
    dispatch-IsDealt button_press ev w k e fresh =
        handle_button_press_release_event-IsDealt true ev w e fresh
    dispatch-IsDealt button_release ev w k e fresh =
        handle_button_press_release_event-IsDealt false ev w e fresh
    dispatch-IsDealt _ ev w k e fresh = absurd cc

    np_handle_event-IsDealt :
        (ev : XEvent) (w : Input)
        → is_pointer ev.kind ≡ true
        → w.posted ≡ []
        → IsFresh w.registry
        → IsDealt w.registry w.vars (np_handle_event c quirk draw ev w)
    unfolding np_handle_event
    np_handle_event-IsDealt ev w k e fresh =
        either (quirk || (w.pp_i.is_fullscreen && not (w.pp_i.fs_wnd == ev.window)))
          (nothing-IsDealt w e 0) (dispatch-IsDealt ev.kind ev w k e fresh)

    -- NPP_HandleEvent returns for an event of the pointer, if nothing is posted yet and two more handles
    -- can be given. If it returns 0, it has posted nothing. Once the main thread has handed all that it
    -- posted to the plugin, to a handler that leaves the tables as they were or to none, there are the
    -- resources and variables that there were before.
    pub np_handle_event-delivered :
        (ev : XEvent) (w : Input) (alive : Bool) (handler : ℕ → Input → Input)
        → is_pointer ev.kind ≡ true
        → w.posted ≡ []
        → IsFresh w.registry
        → IsQuiet handler
        → (w' : Input) × (r : ℕ) × (w'' : Input) × (np_handle_event c quirk draw ev w
            ≡ some (w', r))
          × (deliver_all alive handler w'.posted w' ≡ some w'')
          × (r ≡ 0 → w'.posted ≡ [])
          × (w''.vars ≡ w.vars)
          × ((j : ℕ) → find j w''.registry ≡ find j w.registry)
    np_handle_event-delivered ev w alive handler k e fresh quiet =
        let d = np_handle_event-IsDealt ev w k e fresh in
        let (w'', is, vars, table) =
          deliver_all-Pending alive handler d.after.posted d.after w.registry quiet d.pending in
        (d.after, d.result, w'', d.is, is, d.unhandled, vars ∙ d.vars, table)
