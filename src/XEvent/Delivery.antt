-- ===== src/XEvent/Delivery.antt =====
-- The way of an event of the pointer in src/np_functions.c: from the handlers to the plugin, and out
-- of the table.
use freshplayerplugin.Base.{
  ℕ, suc, ◌≡◌, refl, ◌∙◌, ◌+◌, ◌<◌, ◌≤◌, Bool, ◌&&◌, Option, none, some, List, [], ◌∷◌, ◌==◌,
  if◌then◌else◌, pos, arith, ◌%◌, ◌^◌,
}
use native.Mathlib.Nat.{mod-eq_of_lt}
use freshplayerplugin.Resource.{Res, Registry, Dropped, find, unref, destroyed}
use freshplayerplugin.Resource.Find.{new_res, find-unref, unref-last}
use freshplayerplugin.Resource.Access.{make}
use freshplayerplugin.Resource.Access.Effects.{make-some}
use freshplayerplugin.Resource.Access.Created.{make-next}
use freshplayerplugin.Var.{undefined, VarTable, release, weight, release_all, release_one}
use freshplayerplugin.InputEvent.{Event, zeroed_event, event_type}
use freshplayerplugin.InputEvent.Texts.{destroy_event}
use freshplayerplugin.XEvent.{Input, ended, deliver, deliver_all}

-- An event with one reference that holds no variables.
abbrev pub IsLight : Res Event → Type 0
IsLight q = (q.ref_cnt ≡ pos 1) × (q.body.code ≡ undefined) × (q.body.text ≡ undefined)

-- The events posted stand in the table in their order, and without them it is another one.
abbrev pub Pending : List ℕ → Registry Event → Registry Event → Type 0
Pending [] g0 g = (j : ℕ) → find j g ≡ find j g0
Pending (h ∷ hs) g0 g =
    (q : Res Event) × (find h g ≡ some q)
    × IsLight q
    × ((g' : Registry Event)
        → ((j : ℕ) → find j g' ≡ (if h == j then none else find j g))
        → Pending hs g0 g')

-- A handler of the plugin that leaves the tables as they were.
abbrev pub IsQuiet : (ℕ → Input → Input) → Type 0
IsQuiet handler =
    (h : ℕ) (w : Input)
    → ((handler h w).vars ≡ w.vars) × ((j : ℕ) → find j (handler h w).registry ≡ find j w.registry)

release-undefined : (t : VarTable) → release undefined t ≡ some t
unfolding release release_all release_one
release-undefined t = let e : weight t + 2 ≡ suc (suc (weight t)) = omega arith in rw e refl

destroy_event-light :
    (e : Event) (t : VarTable)
    → e.code ≡ undefined
    → e.text ≡ undefined
    → destroy_event e t ≡ some t
unfolding destroy_event
destroy_event-light e t c x = rw (c, release-undefined t, x, release-undefined t) refl

-- the state that the handler leaves
abbrev handled : Bool → (ℕ → Input → Input) → ℕ → Input → Input
handled alive handler h w = if alive && w.pp_i.ppp_input_event then handler h w else w

handled-quiet :
    (alive : Bool) (handler : ℕ → Input → Input) (h : ℕ) (w : Input)
    → IsQuiet handler
    → ((handled alive handler h w).vars ≡ w.vars)
      × ((j : ℕ) → find j (handled alive handler h w).registry ≡ find j w.registry)
handled-quiet alive handler h w quiet =
    let (vars, table) = quiet h w in (ground (arith, vars), λ j. ground (arith, table j))

ended-light :
    (dropped : Registry Event × Dropped Event) (w : Input) (r : Res Event) (d : Option ℕ)
    → dropped.1 ≡ destroyed r d
    → r.body.code ≡ undefined
    → r.body.text ≡ undefined
    → ended dropped w ≡ some (record w { registry = dropped.0 })
unfolding ended
ended-light (g, what) w r d is code text = rw (is, destroy_event-light r.body w.vars code text) refl

-- A light event goes with its delivery, and nothing else does.
deliver-light :
    (alive : Bool) (handler : ℕ → Input → Input) (h : ℕ) (w : Input) (q : Res Event)
    → IsQuiet handler
    → find h w.registry ≡ some q
    → IsLight q
    → (w' : Input) × (deliver alive handler h w ≡ some w')
      × (w'.vars ≡ w.vars)
      × ((j : ℕ) → find j w'.registry ≡ (if h == j then none else find j w.registry))
unfolding deliver
deliver-light alive handler h w q quiet there (one, code, text) =
    let x : Input = handled alive handler h w in
    let (vars, table) = handled-quiet alive handler h w quiet in
    let (d, r, is, body) = unref-last h x.registry q (table h ∙ there) one in
    (
      record x { registry = (unref h x.registry).0 },
      ended-light (unref h x.registry) x r d is (rw body code) (rw body text),
      vars,
      λ j. find-unref h j x.registry ∙ ground (arith, table h, table j, there, one),
    )

-- Everything that is posted is delivered, and takes itself out of the table.
pub deliver_all-Pending :
    (alive : Bool) (handler : ℕ → Input → Input) (hs : List ℕ) (w : Input) (g0 : Registry Event)
    → IsQuiet handler
    → Pending hs g0 w.registry
    → (w' : Input) × (deliver_all alive handler hs w ≡ some w')
      × (w'.vars ≡ w.vars)
      × ((j : ℕ) → find j w'.registry ≡ find j g0)
unfolding deliver_all
deliver_all-Pending alive handler [] w g0 quiet p = (w, refl, refl, p)
deliver_all-Pending alive handler (h ∷ hs) w g0 quiet (q, there, light, rest) =
    let (w1, is1, vars1, table1) = deliver-light alive handler h w q quiet there light in
    let (w2, is2, vars2, table2) =
      deliver_all-Pending alive handler hs w1 g0 quiet (rest w1.registry table1) in
    (w2, rw is1 is2, vars2 ∙ vars1, table2)

-- Two more handles can be given before they wrap, and no resource has one of them or a later one.
pub record IsFresh (g : Registry Event) : Type 0 where
  pub few : g.res_tbl_next + 2 < 2 ^ 32
  pub unused : (j : ℕ) → g.res_tbl_next ≤ j → find j g ≡ none

-- One table is another one with a light event under its next handle.
pub record IsMade (g g' : Registry Event) : Type 0 where
  pub entry : Res Event
  pub light : IsLight entry
  pub table : (j : ℕ) → find j g' ≡ (if g.res_tbl_next == j then some entry else find j g)
  pub next : g'.res_tbl_next ≡ (g.res_tbl_next + 1) % 2 ^ 32

pub one-Pending :
    (g g' : Registry Event) → IsFresh g → IsMade g g' → Pending (g.res_tbl_next ∷ []) g g'
one-Pending g g' fresh m = (
  m.entry,
  m.table g.res_tbl_next ∙ ground arith,
  m.light,
  λ x removed j. removed j ∙ ground (arith, m.table j, fresh.unused j),
)

pub two-Pending :
    (g g' g'' : Registry Event)
    → IsFresh g
    → IsMade g g'
    → IsMade g' g''
    → Pending (g.res_tbl_next ∷ g'.res_tbl_next ∷ []) g g''
two-Pending g g' g'' fresh m m' =
    let next : g'.res_tbl_next ≡ g.res_tbl_next + 1 =
      m.next ∙ mod-eq_of_lt (omega (arith, fresh.few)) in
    (
      m.entry,
      ground (arith, m'.table g.res_tbl_next, m.table g.res_tbl_next, next),
      m.light,
      λ x removed. (
        m'.entry,
        ground (arith, removed g'.res_tbl_next, m'.table g'.res_tbl_next, next),
        m'.light,
        λ y removed' j. ground (
          arith,
          removed' j,
          removed j,
          m'.table j,
          m.table j,
          next,
          fresh.unused j,
          fresh.unused (g.res_tbl_next + 1),
        ),
      ),
    )

pub make-IsMade :
    (init : Event → Event) (inst : ℕ) (g : Registry Event)
    → (init zeroed_event).code ≡ undefined
    → (init zeroed_event).text ≡ undefined
    → (g' : Registry Event) × (make zeroed_event init event_type (some inst) g
        ≡ some (g', g.res_tbl_next))
      × IsMade g g'
make-IsMade init inst g code text =
    let (g', is, table) = make-some zeroed_event init event_type inst g in
    (
      g',
      is,
      record {
        entry = new_res (init zeroed_event) event_type inst g.res_tbl_next;
        light = (refl, code, text);
        table = table;
        next = make-next zeroed_event init event_type inst g g' g.res_tbl_next is;
      },
    )
