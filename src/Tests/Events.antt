-- ===== src/Tests/Events.antt =====
-- Input events of src/ppb_input_event.c that are made in a table without resources.
use freshplayerplugin.Base.{
  ℕ, ◌≡◌, ◌↔◌, refl, true, false, none, some, [], ◌∷◌, ◌==◌, ◌>>=◌, if◌then◌else◌, codes, arith,
}
use freshplayerplugin.Resource.{Registry, empty, find}
use freshplayerplugin.Resource.Access.Created.{Reads, Creates}
use freshplayerplugin.Var.{VarTable, string, blank, add_ref}
use freshplayerplugin.InputEvent.{Event, Point, origin, mouse, is_ime_kind}
use freshplayerplugin.InputEvent.Pointer.{mouse_create}
use freshplayerplugin.InputEvent.Texts.{ime_create, get_segment_number, get_segment_offset}
use freshplayerplugin.InputEvent.Reading.{
  Common, Classified, MouseFields, WheelFields, mouse_create-Reads,
}
use freshplayerplugin.InputEvent.Segments.{segment_at, ime_create-segments}

abbrev no_events : Registry Event
no_events = empty

abbrev corner : Point
corner = record { x = 640; y = 480 }

mouse_create-Reads_example :
    (g' : Registry Event) × Creates no_events
      (mouse_create (some 1) 0 77 2 1 (some corner) 1 none no_events)
      g'
    × Common no_events.res_tbl_next g' 0 77 2
    × Classified no_events.res_tbl_next g' mouse
    × MouseFields no_events.res_tbl_next g' 1 corner 1 origin
    × WheelFields no_events.res_tbl_next g' origin origin false
mouse_create-Reads_example = mouse_create-Reads 1 0 77 2 1 (some corner) 1 none no_events

abbrev texts : VarTable
texts = record {
  var_ht = (1, record (blank (string 1)) { str = codes "a" }) ∷ [];
  var_id = 1;
  deallocated = [];
}

update_kind : is_ime_kind 12 ≡ true
unfolding is_ime_kind
update_kind = refl

ime_create-segments_example :
    let h : ℕ = no_events.res_tbl_next in
    let segments : ℕ = 2 in
    let index : ℕ = 1 in
    (g' : Registry Event) × (g2 : Registry Event) × (ime_create
        (some 1)
        12
        77
        (string 1)
        2
        (0 ∷ 3 ∷ 7 ∷ [])
        0
        0
        0
        no_events
        texts
      ≡ some (g', add_ref (string 1) texts, h))
    × ((j : ℕ) → (h == j) ≡ false → find j g' ≡ find j no_events)
    × Reads g' (get_segment_number h g') 2
    × (get_segment_offset h 1 g' ≡ (segment_at 2 (0 ∷ 3 ∷ 7 ∷ []) 1 >>= (λ x. some (g2, x))))
    × ((j : ℕ) → find j g2 ≡ find j g')
    × ((segment_at 2 (0 ∷ 3 ∷ 7 ∷ []) 1 ≡ none) ↔ ((segments ≡ 0) × (index ≡ 0)))
ime_create-segments_example =
    ime_create-segments 1 12 77 (string 1) 2 (0 ∷ 3 ∷ 7 ∷ []) 0 0 0 1 no_events texts update_kind
      (omega arith) (omega arith)

-- The caller has one claim on the text.
abbrev claims : ℕ → ℕ
claims i = if i == 1 then 1 else 0
