-- ===== src/InputEvent/Segments.antt =====
-- The segments of the IME events of src/ppb_input_event.c.
use freshplayerplugin.Base.{
  ℕ, zero, suc, ◌+◌, ◌-◌, ◌%◌, ◌^◌, ◌∙◌, ◌<◌, ◌≡◌, ◌↔◌, refl, true, false, Option, none, some, List,
  [], ◌∷◌, ◌==◌, leb, ltb, if◌then◌else◌, length, get_elem?, take, ◌>>=◌, Bool-cases, inl, inr, ◌⊎◌,
  arith,
}
use native.Mathlib.Nat.{mod-eq_of_lt}
use freshplayerplugin.Resource.{Res, Registry, find}
use freshplayerplugin.Resource.Find.{new_res}
use freshplayerplugin.Resource.Access.Effects.{look-free}
use freshplayerplugin.Resource.Access.Created.{Reads, make-IsFree}
use freshplayerplugin.Var.{PpVar, VarTable, add_ref}
use freshplayerplugin.InputEvent.{Event, ime, zeroed_event, event_type, is_ime_kind, of_class}
use freshplayerplugin.InputEvent.Texts.{
  copied_offsets, ime_event, ime_create, get_segment_number, get_segment_offset, read_offset,
  offset_at,
}

get_elem?-take : (n i : ℕ) (xs : List ℕ) → i < n → get_elem? (take n xs) i ≡ get_elem? xs i
get_elem?-take zero i xs h = absurd (omega arith)
get_elem?-take (suc n) i [] h = refl
get_elem?-take (suc n) zero (x ∷ xs) h = refl
get_elem?-take (suc n) (suc i) (x ∷ xs) h = get_elem?-take n i xs (omega arith)

-- What there is at an index in an array for `n` segments; past the end there is a 0.
abbrev pub segment_at : ℕ → List ℕ → ℕ → Option ℕ
segment_at n offsets index =
    if ltb n index then some 0 else if n == 0 then none else get_elem? offsets index

get_elem?-some : (i : ℕ) (xs : List ℕ) → i < length xs → (x : ℕ) × (get_elem? xs i ≡ some x)
get_elem?-some i [] h = absurd (omega arith)
get_elem?-some zero (x ∷ xs) h = (x, refl)
get_elem?-some (suc i) (x ∷ xs) h = get_elem?-some i xs (omega arith)

read_offset-segment_at :
    (n index : ℕ) (offsets : List ℕ)
    → n < 2 ^ 32 - 1
    → (if leb index n then offset_at (copied_offsets n offsets) index else some 0)
      ≡ segment_at n offsets index
read_offset-segment_at n index offsets short =
    let fits : (n + 1) % 2 ^ 32 ≡ suc n = mod-eq_of_lt (omega (arith, short)) ∙ omega arith in
    ground (arith, fits, get_elem?-take (suc n) index offsets)

segment_at-none_iff :
    (n index : ℕ) (offsets : List ℕ)
    → n < length offsets
    → (segment_at n offsets index ≡ none) ↔ ((n ≡ 0) × (index ≡ 0))
segment_at-none_iff n index offsets h =
    (λ e. none_zero (Bool-cases (ltb index (length offsets))) e, λ e. ground arith)
  where
    none_zero :
        (ltb index (length offsets) ≡ true) ⊎ (ltb index (length offsets) ≡ false)
        → segment_at n offsets index ≡ none
        → (n ≡ 0) × (index ≡ 0)
    none_zero (inl a) e = let (x, is) = get_elem?-some index offsets (ground arith) in ground arith
    none_zero (inr b) e = absurd (ground arith)

-- An IME event, of any of the four types, that is made for an instance with `n` segments, less than
-- 2^32 - 1, and `n + 1` offsets is a new resource.
-- Its number of segments is `n`, and its offset at an index is that of the given array up to `n`,
-- and 0 after that. This reads memory that is not the event's exactly for the index 0 of an event
-- without segments, whose array is NULL.
pub ime_create-segments :
    (inst kind time_stamp : ℕ) (text : PpVar) (n : ℕ) (offsets : List ℕ)
    (target start stop index : ℕ) (g : Registry Event) (t : VarTable)
    → is_ime_kind kind ≡ true
    → n < 2 ^ 32 - 1
    → n < length offsets
    → let h = g.res_tbl_next in
      let made = ime_create (some inst) kind time_stamp text n offsets target start stop g t in
      (g' : Registry Event) × (g2 : Registry Event) × (made ≡ some (g', add_ref text t, h))
      × ((j : ℕ) → (h == j) ≡ false → find j g' ≡ find j g)
      × Reads g' (get_segment_number h g') n
      × (get_segment_offset h index g' ≡ (segment_at n offsets index >>= (λ x. some (g2, x))))
      × ((j : ℕ) → find j g2 ≡ find j g')
      × ((segment_at n offsets index ≡ none) ↔ ((n ≡ 0) × (index ≡ 0)))
unfolding ime_create get_segment_number get_segment_offset
ime_create-segments inst kind time_stamp text n offsets target start stop index g t is_kind short
      long =
    let init : Event → Event = ime_event kind time_stamp text n offsets target start stop in
    let (g', (is, table), free) = make-IsFree zeroed_event init event_type inst g in
    let h : ℕ = g.res_tbl_next in
    let q : Res Event = new_res (init zeroed_event) event_type inst h in
    let (g2, reads, same) =
      look-free event_type h q g' (some 0) (of_class ime (some 0) (read_offset index)) free in
    (
      g',
      g2,
      rw (is_kind, is) refl,
      table,
      look-free event_type h q g' 0 (of_class ime 0 (λ e. e.segment_number)) free,
      rw (reads, read_offset-segment_at n index offsets short) refl,
      same,
      segment_at-none_iff n index offsets long,
    )
