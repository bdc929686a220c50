-- ===== src/Tests/Mouse.antt =====
-- The right button of the mouse, released over an instance of a browser's window.
use freshplayerplugin.Base.{
  ℕ, ◌≡◌, refl, true, false, none, some, [], ◌∷◌, ◌==◌, arith, List, Option,
}
use freshplayerplugin.Base.Assoc.{lookup, insert}
use freshplayerplugin.Resource.{empty, find, acquire, allocate, release, unref, unlock}
use freshplayerplugin.Var.{VarTable}
use freshplayerplugin.XEvent.{State, button_release, XEvent, Input, Config, deliver_all}
use freshplayerplugin.XEvent.Methods.{np_handle_event}
use freshplayerplugin.XEvent.Pointers.{np_handle_event-delivered}

abbrev no_keys : State
no_keys = record {
  shift = false;
  lock = false;
  control = false;
  mod1 = false;
  mod2 = false;
  mod4 = false;
  button1 = false;
  button2 = false;
  button3 = true;
}

abbrev right_up : XEvent
right_up = record {
  kind = button_release;
  window = 5;
  time = 9000;
  x = 30;
  y = 40;
  state = no_keys;
  button = 3;
  normal_mode = true;
  keysym = 0;
  buffer = [];
  taken = false;
}

abbrev no_variables : VarTable
no_variables = record { var_ht = []; var_id = 1; deallocated = [] }

abbrev listening : Input
listening = record {
  registry = empty;
  vars = no_variables;
  pp_i = record {
    id = 1;
    ppp_input_event = true;
    masks = record { event_mask = λ k. k == 0; filtered_event_mask = λ k. false };
    cursor_inside_instance = true;
    last_button_release_timestamp = 8900;
    im_context = false;
    is_fullscreen = false;
    fs_wnd = 0;
  };
  posted = [];
  focus_changes = [];
}

abbrev desktop : Config
desktop = record {
  scaled = λ n. n;
  seconds = λ n. n;
  double_click_delay_ms = 400;
  xkeycode_to_pp_keycode = λ n. n;
}

abbrev no_drawing : XEvent → Input → Option (Input × ℕ)
no_drawing ev w = some (w, 1)

abbrev note_time : ℕ → Input → Input
note_time h w = record w { focus_changes = true ∷ w.focus_changes }

np_handle_event-delivered_example :
    (w' : Input) × (r : ℕ) × (w'' : Input) × (np_handle_event desktop false no_drawing right_up
        listening
      ≡ some (w', r))
    × (deliver_all true note_time w'.posted w' ≡ some w'')
    × (r ≡ 0 → w'.posted ≡ [])
    × (w''.vars ≡ no_variables)
    × ((j : ℕ) → find j w''.registry ≡ find j listening.registry)
unfolding lookup
np_handle_event-delivered_example =
    np_handle_event-delivered desktop false no_drawing right_up listening true note_time refl refl
      (record { few = ground arith; unused = λ j le. refl }) (λ h w. (refl, λ j. refl))

posted_by : Option (Input × ℕ) → List ℕ
posted_by none = []
posted_by (some (w, r)) = w.posted

-- the button's event and the one for the menu
two_events : posted_by (np_handle_event desktop false no_drawing right_up listening) ≡ 1 ∷ 2 ∷ []
unfolding posted_by np_handle_event acquire lookup allocate insert release unref unlock
two_events = refl
