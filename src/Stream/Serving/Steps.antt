-- ===== src/Stream/Serving/Steps.antt =====
-- The readers of a response body through all that happens to a stream.
use freshplayerplugin.Base.{
  ◌≡◌, refl, sym, Bool, true, false, none, some, is_some, List, [], ◌∷◌, ◌++◌, if◌then◌else◌, Bytes,
  length, arith,
}
use mathlib.Core.Path.{subst}
use freshplayerplugin.Stream.{
  ReadTask, Loader, Delivery, read_body, write_body, serve_all, destroy_body, advance, read_open,
  Answer,
}
use freshplayerplugin.Stream.Order.{append_assoc, append_nil, contents, IsServed}
use freshplayerplugin.Stream.Serving.{
  given, read_body-IsServed, write_body-IsServed, serve_all-IsServed,
}

-- What happens to a stream: the browser adds bytes at its end, or the plugin asks for some.
pub data Step : Type 0 where
  writes : Bytes → Step
  reads : ReadTask → Bool → Step

-- The bytes of the stream, the requests, and what was given, after steps.
unfoldable pub streamed : List Step → Bytes
streamed [] = []
streamed (writes b ∷ ss) = b ++ streamed ss
streamed (reads rt optional ∷ ss) = streamed ss

unfoldable pub asked_for : List Step → List ReadTask
asked_for [] = []
asked_for (writes b ∷ ss) = asked_for ss
asked_for (reads rt optional ∷ ss) = rt ∷ asked_for ss

-- `f` is what the file has, whose length is the offset of the browser's next bytes.
unfoldable pub run : Bytes → List Step → Loader → Loader × List Delivery
run f [] l = (l, [])
run f (writes b ∷ ss) l =
    let (l', ds) = write_body (length f) b l in
    let rest = run (f ++ b) ss l' in (rest.0, ds ++ rest.1)
run f (reads rt optional ∷ ss) l =
    let (l', answer) = read_body rt optional l in
    let rest = run f ss l' in (rest.0, given rt answer ++ rest.1)

run-IsServed_from :
    (f : Bytes) (ss : List Step) (requests : List ReadTask) (ds : List Delivery) (l : Loader)
    → IsServed f requests ds l
    → IsServed (f ++ streamed ss) (requests ++ asked_for ss) (ds ++ (run f ss l).1) (run f ss l).0
unfolding run streamed asked_for
run-IsServed_from f [] requests ds l s = rw (append_nil f, append_nil requests, append_nil ds) s
run-IsServed_from f (writes b ∷ ss) requests ds l s =
    let out : Loader × List Delivery = write_body (length f) b l in
    let rest =
      run-IsServed_from (f ++ b) ss requests (ds ++ out.1) out.0
        (write_body-IsServed f b requests ds l s) in
    rw (← append_assoc f b (streamed ss), ← append_assoc ds out.1 (run (f ++ b) ss out.0).1) rest
run-IsServed_from f (reads rt optional ∷ ss) requests ds l s =
    let out : Loader × Answer = read_body rt optional l in
    let rest =
      run-IsServed_from f ss (requests ++ (rt ∷ [])) (ds ++ given rt out.1) out.0
        (read_body-IsServed f requests ds l rt optional s) in
    subst (λ x. IsServed (f ++ streamed ss) (requests ++ (rt ∷ asked_for ss)) x (run f ss out.0).0)
      (append_assoc ds (given rt out.1) (run f ss out.0).1)
      (subst
        (λ x.
          IsServed (f ++ streamed ss) x ((ds ++ given rt out.1) ++ (run f ss out.0).1)
            (run f ss out.0).0)
        (append_assoc requests (rt ∷ []) (asked_for ss)) rest)

abbrev pub fresh : Loader
fresh = record {
  file = some [];
  read_pos = 0;
  finished_loading = false;
  redirect_url = none;
  read_tasks = [];
}

fresh-IsServed : IsServed [] [] [] fresh
unfolding contents
fresh-IsServed = record {
  opened = refl;
  direct = refl;
  within = omega arith;
  read = refl;
  order = refl;
}

serve_all-empty : (ts : List ReadTask) (l : Loader) → (serve_all ts l).0.read_tasks ≡ []
unfolding serve_all
serve_all-empty [] l = refl
serve_all-empty (rt ∷ ts) l =
    serve_all-empty ts
      (record l { read_pos = advance l.read_pos (read_open l.read_pos rt.bytes_to_read l.file) })

-- The end of a stream answers all that wait.
destroy_body-IsServed :
    (f : Bytes) (requests : List ReadTask) (ds : List Delivery) (l : Loader)
    → IsServed f requests ds l
    → let (l', late) = destroy_body l in IsServed f requests (ds ++ late) l' × (l'.read_tasks ≡ [])
unfolding destroy_body
destroy_body-IsServed f requests ds l s =
    let ended : Loader = record l { finished_loading = true } in
    let still : IsServed f requests ds ended = record {
      opened = s.opened;
      direct = s.direct;
      within = s.within;
      read = s.read;
      order = s.order;
    } in
    let out : Loader × List Delivery = serve_all l.read_tasks ended in
    subst
      (λ o.
        let last : Loader × List Delivery = if is_some o then (l, []) else out in
        IsServed f requests (ds ++ last.1) last.0 × (last.0.read_tasks ≡ []))
      (sym s.direct)
      (
        serve_all-IsServed f requests l.read_tasks ds ended still,
        serve_all-empty l.read_tasks ended,
      )

-- Whatever bytes the browser writes one after the other, and whatever the plugin asks for in
-- between, the readers have got the first bytes of the stream, up to the reading position, each byte
-- once and in order, and the requests are answered in their order, with those that still wait at
-- the end. When the stream ends, each waiting request is answered, so all have been in their order.
pub run-IsServed :
    (ss : List Step)
    → let (l, ds) = run [] ss fresh in
      let (l', late) = destroy_body l in
      IsServed (streamed ss) (asked_for ss) ds l
      × IsServed (streamed ss) (asked_for ss) (ds ++ late) l'
      × (l'.read_tasks ≡ [])
run-IsServed ss =
    let out : Loader × List Delivery = run [] ss fresh in
    let s = run-IsServed_from [] ss [] [] fresh fresh-IsServed in
    let (ended, none_waits) = destroy_body-IsServed (streamed ss) (asked_for ss) out.1 out.0 s in
    (s, ended, none_waits)
