-- ===== src/Stream/Serving.antt =====
-- The readers of a response body through one operation on the loader.
pub mod Steps
use freshplayerplugin.Base.{
  ◌+◌, ◌≡◌, refl, sym, ap, ◌∙◌, Bool, true, false, not, ◌&&◌, Option, some, List, [], ◌∷◌, ◌++◌,
  map, ◌==◌, if◌then◌else◌, Bytes, length, length-append, Bool-cases, inl, inr, arith,
}
use mathlib.Core.Path.{subst}
use freshplayerplugin.Stream.{
  ReadTask, Loader, Delivery, returned, read_at, read_now, read_found, read_body, write_found,
  serve_first, write_body, serve_all, destroy_body, advance, read_open, Answer,
}
use freshplayerplugin.Stream.Order.{
  append_assoc, append_nil, take_before, write_at_end, contents, IsServed, IsServed-deliver,
  IsServed-schedule,
}

-- What a reader gets of an answer, now or by its callback.
abbrev pub given : ReadTask → Answer → List Delivery
given rt (ds, returned b) = record { task = rt; content = some b } ∷ ds
given rt (ds, _) = ds

read_now-IsServed :
    (f : Bytes) (requests : List ReadTask) (ds : List Delivery) (l : Loader) (rt : ReadTask)
    (optional : Bool)
    → IsServed f requests ds l
    → l.read_tasks ≡ []
    → let out = read_now rt optional (read_at l.read_pos rt.bytes_to_read f) l in
      IsServed f (requests ++ (rt ∷ [])) (ds ++ given rt out.1) out.0
read_now-IsServed f requests ds l rt optional s none_waits =
    let order : map (λ (d : Delivery). d.task) ds ++ (rt ∷ []) ≡ requests ++ (rt ∷ []) =
      ap (λ x. x ++ (rt ∷ []))
        (sym (append_nil (map (λ (d : Delivery). d.task) ds))
          ∙ ap (λ x. map (λ (d : Delivery). d.task) ds ++ x) (sym none_waits)
          ∙ s.order) in
    let b : Bytes = read_at l.read_pos rt.bytes_to_read f in
    let after : Loader = record l { read_pos = l.read_pos + length b } in
    let done =
      IsServed-deliver f (requests ++ (rt ∷ [])) ds l after rt [] s.within s.read order s.opened
        s.direct refl none_waits in
    elim (Bool-cases (length b == 0 && not l.finished_loading)) [
      | inl e ↦ rw e (IsServed-schedule f requests ds l rt s)
      | inr n ↦ rw n (elim (Bool-cases optional) [ inl o ↦ rw o done | inr o ↦ rw o done ])
    ]

read_found-IsServed :
    (f : Bytes) (requests : List ReadTask) (ds : List Delivery) (l : Loader) (rt : ReadTask)
    (optional : Bool) (ts : List ReadTask)
    → IsServed f requests ds l
    → l.read_tasks ≡ ts
    → let out = read_found rt optional l (some f) ts in
      IsServed f (requests ++ (rt ∷ [])) (ds ++ given rt out.1) out.0
read_found-IsServed f requests ds l rt optional [] s e =
    read_now-IsServed f requests ds l rt optional s e
read_found-IsServed f requests ds l rt optional (t ∷ ts) s e =
    IsServed-schedule f requests ds l rt s

pub read_body-IsServed :
    (f : Bytes) (requests : List ReadTask) (ds : List Delivery) (l : Loader) (rt : ReadTask)
    (optional : Bool)
    → IsServed f requests ds l
    → let out = read_body rt optional l in
      IsServed f (requests ++ (rt ∷ [])) (ds ++ given rt out.1) out.0
unfolding read_body
read_body-IsServed f requests ds l rt optional s =
    subst
      (λ o.
        let out = read_found rt optional l o l.read_tasks in
        IsServed f (requests ++ (rt ∷ [])) (ds ++ given rt out.1) out.0)
      (sym s.opened) (read_found-IsServed f requests ds l rt optional l.read_tasks s refl)

serve_first-IsServed :
    (f : Bytes) (requests : List ReadTask) (ds : List Delivery) (l : Loader) (ts : List ReadTask)
    → IsServed f requests ds l
    → l.read_tasks ≡ ts
    → IsServed f requests (ds ++ (serve_first f l ts).1) (serve_first f l ts).0
serve_first-IsServed f requests ds l [] s e = rw (append_nil ds) s
serve_first-IsServed f requests ds l (rt ∷ ts) s e =
    let b : Bytes = read_at l.read_pos rt.bytes_to_read f in
    let after : Loader = record l { read_pos = l.read_pos + length b; read_tasks = ts } in
    let order : map (λ (d : Delivery). d.task) ds ++ (rt ∷ ts) ≡ requests =
      ap (λ x. map (λ (d : Delivery). d.task) ds ++ x) (sym e) ∙ s.order in
    elim (Bool-cases (length b == 0)) [
      | inl z ↦ rw (z, append_nil ds) s
      | inr n ↦ rw n (
          IsServed-deliver f requests ds l after rt ts s.within s.read order s.opened s.direct refl
            refl)
    ]

IsServed-append :
    (f b : Bytes) (requests : List ReadTask) (ds : List Delivery) (l : Loader)
    → IsServed f requests ds l
    → IsServed (f ++ b) requests ds (record l { file = some (f ++ b) })
IsServed-append f b requests ds l s = record {
  opened = refl;
  direct = s.direct;
  within = omega (arith, s.within, length-append f b);
  read = s.read ∙ sym (take_before l.read_pos f b s.within);
  order = s.order;
}

write_found-IsServed :
    (f b : Bytes) (requests : List ReadTask) (ds : List Delivery) (l : Loader)
    → IsServed f requests ds l
    → let out = write_found (length f) b l (some f) in
      IsServed (f ++ b) requests (ds ++ out.1) out.0
write_found-IsServed f [] requests ds l s = rw (append_nil f, append_nil ds) s
write_found-IsServed f (c ∷ b) requests ds l s =
    let some_bytes : (length (c ∷ b) == 0) ≡ false = ground arith in
    rw (some_bytes, write_at_end (c ∷ b) f)
      (serve_first-IsServed (f ++ (c ∷ b)) requests ds (record l { file = some (f ++ (c ∷ b)) })
        l.read_tasks (IsServed-append f (c ∷ b) requests ds l s) refl)

pub write_body-IsServed :
    (f b : Bytes) (requests : List ReadTask) (ds : List Delivery) (l : Loader)
    → IsServed f requests ds l
    → IsServed (f ++ b) requests (ds ++ (write_body (length f) b l).1) (write_body (length f) b l).0
unfolding write_body
write_body-IsServed f b requests ds l s =
    subst
      (λ o.
        let out = write_found (length f) b l o in IsServed (f ++ b) requests (ds ++ out.1) out.0)
      (sym s.opened) (write_found-IsServed f b requests ds l s)

pub serve_all-IsServed :
    (f : Bytes) (requests : List ReadTask) (ts : List ReadTask) (ds : List Delivery) (l : Loader)
    → IsServed f requests ds (record l { read_tasks = ts })
    → IsServed f requests (ds ++ (serve_all ts l).1) (serve_all ts l).0
unfolding serve_all
serve_all-IsServed f requests [] ds l s = rw (append_nil ds) s
serve_all-IsServed f requests (rt ∷ ts) ds l s =
    let b : Bytes = read_at l.read_pos rt.bytes_to_read f in
    let d : Delivery = record { task = rt; content = some b } in
    let next : Loader = record l { read_pos = l.read_pos + length b } in
    let served : IsServed f requests (ds ++ (d ∷ [])) (record next { read_tasks = ts }) =
      IsServed-deliver f requests ds l (record next { read_tasks = ts }) rt ts s.within s.read
        s.order s.opened s.direct refl refl in
    subst
      (λ o.
        let read : Option Bytes = read_open l.read_pos rt.bytes_to_read o in
        let rest : Loader × List Delivery =
          serve_all ts (record l { read_pos = advance l.read_pos read }) in
        IsServed f requests (ds ++ (record { task = rt; content = read } ∷ rest.1)) rest.0)
      (sym s.opened)
      (subst (λ x. IsServed f requests x (serve_all ts next).0)
        (append_assoc ds (d ∷ []) (serve_all ts next).1)
        (serve_all-IsServed f requests ts (ds ++ (d ∷ [])) next served))
