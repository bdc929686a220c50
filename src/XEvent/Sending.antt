-- ===== src/XEvent/Sending.antt =====
-- What a handler of src/np_functions.c has posted, after one event, after two, and after none.
use freshplayerplugin.Base.{
  ℕ, ◌≡◌, refl, Bool, true, false, Option, some, [], ◌∷◌, ◌++◌, if◌then◌else◌,
}
use freshplayerplugin.Resource.{Registry}
use freshplayerplugin.Var.{VarTable}
use freshplayerplugin.InputEvent.{origin, Event}
use freshplayerplugin.InputEvent.Pointer.{mouse_create, wheel_create, mouse_event, wheel_event}
use freshplayerplugin.XEvent.{
  XEvent, Input, Config, send_mouse, place, x_state_mask_to_pp_inputevent_modifier, done,
  send_wheel, turned, ten_float, minus_ten_float, one_float, minus_one_float,
}
use freshplayerplugin.XEvent.Delivery.{
  Pending, IsFresh, IsMade, make-IsMade, one-Pending, two-Pending,
}

-- A handler returns, and what it has posted is what it has made.
pub record IsDealt (g : Registry Event) (t : VarTable) (out : Option (Input × ℕ)) : Type 0 where
  pub after : Input
  pub result : ℕ
  pub is : out ≡ some (after, result)
  pub vars : after.vars ≡ t
  pub pending : Pending after.posted g after.registry
  pub unhandled : result ≡ 0 → after.posted ≡ []

-- One more event is made and posted.
pub record IsSent (w : Input) (out : Option Input) : Type 0 where
  pub table : Registry Event
  pub is :
      out
      ≡ some (record w { registry = table; posted = w.posted ++ (w.registry.res_tbl_next ∷ []) })
  pub made : IsMade w.registry table

pub nothing-IsDealt :
    (w : Input) → w.posted ≡ [] → (r : ℕ) → IsDealt w.registry w.vars (some (w, r))
nothing-IsDealt w e r = record {
  after = w;
  result = r;
  is = refl;
  vars = refl;
  pending = rw e (λ j. refl);
  unhandled = λ z. e;
}

-- both branches of a test
pub either :
    {g : Registry Event} {t : VarTable} {x y : Option (Input × ℕ)} (test : Bool)
    → IsDealt g t x
    → IsDealt g t y
    → IsDealt g t (if test then x else y)
either true a b = a
either false a b = b

pub sent-IsDealt :
    (w : Input) (out : Option Input)
    → w.posted ≡ []
    → IsFresh w.registry
    → IsSent w out
    → IsDealt w.registry w.vars (done out)
sent-IsDealt w out e fresh s = record {
  after = record w { registry = s.table; posted = w.posted ++ (w.registry.res_tbl_next ∷ []) };
  result = 1;
  is = rw s.is refl;
  vars = refl;
  pending = rw e (one-Pending w.registry s.table fresh s.made);
  unhandled = λ z. absurd cc;
}

-- a first event, and then another one or none
pub first-IsDealt :
    (w w1 : Input)
    → w1.posted ≡ w.registry.res_tbl_next ∷ []
    → w1.vars ≡ w.vars
    → IsFresh w.registry
    → IsMade w.registry w1.registry
    → IsDealt w.registry w.vars (done (some w1))
first-IsDealt w w1 e v fresh made = record {
  after = w1;
  result = 1;
  is = refl;
  vars = v;
  pending = rw e (one-Pending w.registry w1.registry fresh made);
  unhandled = λ z. absurd cc;
}

pub second-IsDealt :
    (w w1 : Input) (out : Option Input)
    → w1.posted ≡ w.registry.res_tbl_next ∷ []
    → w1.vars ≡ w.vars
    → IsFresh w.registry
    → IsMade w.registry w1.registry
    → IsSent w1 out
    → IsDealt w.registry w.vars (done out)
second-IsDealt w w1 out e v fresh made s = record {
  after = record w1 { registry = s.table; posted = w1.posted ++ (w1.registry.res_tbl_next ∷ []) };
  result = 1;
  is = rw s.is refl;
  vars = v;
  pending = rw e (two-Pending w.registry w1.registry s.table fresh made s.made);
  unhandled = λ z. absurd cc;
}

pub maybe_second-IsDealt :
    (w w1 : Input) (out : Option Input) (test : Bool)
    → w1.posted ≡ w.registry.res_tbl_next ∷ []
    → w1.vars ≡ w.vars
    → IsFresh w.registry
    → IsMade w.registry w1.registry
    → IsSent w1 out
    → IsDealt w.registry w.vars (done (if test then out else some w1))
maybe_second-IsDealt w w1 out true e v fresh made s = second-IsDealt w w1 out e v fresh made s
maybe_second-IsDealt w w1 out false e v fresh made s = first-IsDealt w w1 e v fresh made

module _ (c : Config) where
  pub send_mouse-IsSent :
      (kind button clicks : ℕ) (ev : XEvent) (w : Input)
      → IsSent w (send_mouse c kind button clicks ev w)
  unfolding mouse_create
  send_mouse-IsSent kind button clicks ev w =
      let (g', is, made) =
        make-IsMade
          (mouse_event kind (c.seconds ev.time) (x_state_mask_to_pp_inputevent_modifier ev.state)
            button (some (place c ev)) clicks (some origin))
          w.pp_i.id w.registry refl refl in
      record { table = g'; is = rw is refl; made = made }

  pub send_wheel-IsSent : (ev : XEvent) (w : Input) → IsSent w (send_wheel c ev w)
  unfolding wheel_create send_wheel
  send_wheel-IsSent ev w =
      let (g', is, made) =
        make-IsMade
          (wheel_event (c.seconds ev.time) (x_state_mask_to_pp_inputevent_modifier ev.state)
            (some (turned ten_float minus_ten_float ev.button))
            (some (turned one_float minus_one_float ev.button)) false)
          w.pp_i.id w.registry refl refl in
      record { table = g'; is = rw is refl; made = made }
