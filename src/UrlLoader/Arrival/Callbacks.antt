-- ===== src/UrlLoader/Arrival/Callbacks.antt =====
-- How often the browser's calls answer the plugin that has opened a loader.
pub mod Once
use freshplayerplugin.Base.{
  ℕ, ◌+◌, ◌≡◌, refl, sym, ap, ◌∙◌, Bool, true, false, not, ◌&&◌, ◌||◌, Option, none, some, List, [],
  ◌∷◌, ◌++◌, ◌==◌, if◌then◌else◌, Bytes, is_some, Bool-cases, inl, inr, arith, ◌>>=◌,
}
use freshplayerplugin.Base.Assoc.{insert}
use freshplayerplugin.Headers.{ParsedHeaders, hp_parse_headers}
use freshplayerplugin.Resource.{Res, Registry, find, store}
use freshplayerplugin.Resource.Find.{acquired}
use freshplayerplugin.Resource.Access.{finish, with_resource}
use freshplayerplugin.Resource.Access.Effects.{IsFree, with_resource-free, find-finish, change-free}
use freshplayerplugin.Stream.{loader_type}
use freshplayerplugin.UrlRequest.{PostItem}
use freshplayerplugin.UrlRequest.PostData.Balance.{slices}
use freshplayerplugin.UrlLoader.Sending.{Sent, get_url_notify}
use freshplayerplugin.UrlLoader.Opening.{Surroundings, joined, redirected}
use freshplayerplugin.UrlLoader.Opening.Tables.{IsQuiet, IsApart}
use freshplayerplugin.UrlLoader.Opening.Redirect.{follow_redirect-done}
use freshplayerplugin.UrlLoader.Arrival.{
  NpStream, post_if, answered, filled, is_redirect, arrive, np_new_stream, np_url_notify,
  choose_loader, new_stream_for, np_url_redirect_notify, to_redirect,
}
use freshplayerplugin.UrlLoader.{
  Callback, no_callback, UrlLoader, Item, loader, as_loader, on_loader, Net, Instance, Posted,
  Status, ok, failed,
}

-- How many of the posted calls are of a function.
abbrev pub is_call : ℕ → Option ℕ → ℕ
is_call f none = 0
is_call f (some g) = if f == g then 1 else 0

abbrev pub calls : ℕ → List Posted → ℕ
calls f [] = 0
calls f (p ∷ ps) = is_call f p.ccb.func + calls f ps

pub calls-append : (f : ℕ) (ps qs : List Posted) → calls f (ps ++ qs) ≡ calls f ps + calls f qs
calls-append f [] qs = omega arith
calls-append f (p ∷ ps) qs = omega (arith, calls-append f ps qs)

pub calls-post_if :
    (f : ℕ) (callback : Callback) (loop : ℕ) (result : Status)
    → calls f (post_if callback loop result) ≡ is_call f callback.func
calls-post_if f callback loop result = ground arith

-- A loader that no thread is inside of, whose callback has the function.
abbrev pub Calls : ℕ → Option ℕ → Net → Type 0
Calls h func w =
    (q : Res Item) × IsFree loader_type h q w.registry
    × ((as_loader q.body).ccb.func ≡ func)
    × IsApart h (as_loader q.body).post_data

-- The loader after a change by the holder of its lock.
finish-IsFree :
    (h : ℕ) (b : Item) (q : Res Item) (g : Registry Item)
    → IsFree loader_type h q g
    → IsFree loader_type h
        (record q { body = b })
        (finish h (λ _. b) (acquired q) (store h (acquired q) g))
finish-IsFree h b q g free = record {
  there = find-finish loader_type h h (λ _. b) q g free ∙ ground arith;
  typed = free.typed;
  free = free.free;
  counted = free.counted;
}

choose_loader-own :
    (s : NpStream) (h : ℕ) (i : Instance)
    → s.notify_data ≡ h
    → (h == 0) ≡ false
    → choose_loader s i ≡ (h, false, i)
unfolding choose_loader
choose_loader-own s h i e real = rw (e, real) refl

-- What an answer of the browser leaves: the function has been called if it was the callback's, and
-- is no more.
pub record Answered (f h : ℕ) (func : Option ℕ) (w : Net) (posted : List Posted) : Type 0 where
  pub counted : calls f posted ≡ is_call f func
  pub left : Option ℕ
  pub holds : Calls h left w
  pub settled : is_call f left ≡ 0

module _ (e : Surroundings) (quiet : IsQuiet e) (alive : e.alive ≡ true) (f h : ℕ)
    (other : (f == e.do_nothing) ≡ false) where
  abbrev pub taken : Res Item → Net → Net
  taken q w = record w { registry = store h (acquired q) w.registry }

  abbrev pub Answers : Option (Net × List Posted × List Sent) → Option ℕ → Type 0
  Answers out func =
      (w' : Net) × (posted : List Posted) × (sent : List Sent) × (out ≡ some (w', posted, sent))
      × Answered f h func w' posted

  arrive-Answers :
      (s : NpStream) (q : Res Item) (w : Net)
      → IsFree loader_type h q w.registry
      → IsApart h (as_loader q.body).post_data
      → Answers (arrive e s h false (acquired q) (taken q w)) (as_loader q.body).ccb.func
  unfolding arrive redirected slices
  arrive-Answers s q w free apart =
      let l : UrlLoader = as_loader q.body in
      let ph : ParsedHeaders = hp_parse_headers s.headers in
      let nothing : Callback = record { func = some e.do_nothing; user_data = 0 } in
      let posted : List Posted = post_if l.ccb l.ccb_ml ok in
      let l1 : UrlLoader = answered s l in
      let l2 : UrlLoader = filled s ph l1 in
      let g1 : Registry Item =
        finish h (λ _. loader l1) (acquired q) (store h (acquired q) w.registry) in
      let g2 : Registry Item =
        finish h (λ _. loader l2) (acquired q) (store h (acquired q) w.registry) in
      elim (Bool-cases (is_redirect ph l)) [
        | inl y ↦
            let (w', is, table, pdata, pp_i, vars) =
              follow_redirect-done e h (record q { body = loader l1 }) nothing
                (record w { registry = g1 }) (finish-IsFree h (loader l1) q w.registry free) apart
                quiet alive refl in
            let l3 : UrlLoader = redirected e.temporary nothing e.current_loop l1 in
            (
              w',
              posted,
              get_url_notify l1.stream.redirect_url h ∷ [],
              rw (y, is) refl,
              record {
                counted = calls-post_if f l.ccb l.ccb_ml ok;
                left = some e.do_nothing;
                holds = (
                  record q { body = loader l3 },
                  record {
                    there = table h ∙ ground arith;
                    typed = free.typed;
                    free = free.free;
                    counted = free.counted;
                  },
                  refl,
                  refl,
                );
                settled = ground arith;
              },
            )
        | inr n ↦ (
          record w { registry = g2 },
          posted,
          [],
          rw n refl,
          record {
            counted = calls-post_if f l.ccb l.ccb_ml ok;
            left = none;
            holds = (
              record q { body = loader l2 },
              finish-IsFree h (loader l2) q w.registry free,
              refl,
              apart,
            );
            settled = refl;
          },
        )
      ]

  pub new_stream-Answers :
      (s : NpStream) (q : Res Item) (w : Net)
      → s.notify_data ≡ h
      → (h == 0) ≡ false
      → IsFree loader_type h q w.registry
      → IsApart h (as_loader q.body).post_data
      → Answers (np_new_stream e s w) (as_loader q.body).ccb.func
  unfolding np_new_stream
  new_stream-Answers s q w is_for real free apart =
      let w1 : Net = record w { pdata = insert s.address h w.pdata } in
      let act : Res Item → Registry Item → Option (Net × List Posted × List Sent) =
        λ r g. arrive e s h false r (record w1 { registry = g }) in
      let missing : Option (Net × List Posted × List Sent) = some (w1, [], []) in
      let (w', posted, sent, is, rest) = arrive-Answers s q w1 free apart in
      (
        w',
        posted,
        sent,
        ap {B = Option (Net × List Posted × List Sent)} (λ c. new_stream_for e s c w)
              (choose_loader-own s h w.pp_i is_for real)
            ∙ rw real
                (ap joined (with_resource-free loader_type h q w.registry missing act free) ∙ is),
        rest,
      )
