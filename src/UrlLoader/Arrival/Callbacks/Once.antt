-- ===== src/UrlLoader/Arrival/Callbacks/Once.antt =====
-- A loader through all calls that the browser makes for it.
use freshplayerplugin.Base.{
  ℕ, ◌≡◌, refl, ap, ◌∙◌, Bool, true, false, ◌||◌, Option, none, some, List, [], ◌∷◌, ◌++◌, ◌==◌,
  if◌then◌else◌, Bytes, arith, ◌>>=◌,
}
use freshplayerplugin.Resource.{Res, Registry, find}
use freshplayerplugin.Resource.Access.{change}
use freshplayerplugin.Resource.Access.Effects.{IsFree, change-free}
use freshplayerplugin.Stream.{loader_type}
use freshplayerplugin.UrlLoader.Opening.{Surroundings}
use freshplayerplugin.UrlLoader.Opening.Tables.{IsQuiet, IsApart}
use freshplayerplugin.UrlLoader.Arrival.{
  NpStream, post_if, np_new_stream, np_url_notify, np_url_redirect_notify, to_redirect,
}
use freshplayerplugin.UrlLoader.{
  no_callback, UrlLoader, Item, loader, as_loader, on_loader, Net, Posted, failed,
}
use freshplayerplugin.UrlLoader.Arrival.Callbacks.{
  is_call, calls, calls-append, Calls, new_stream-Answers, calls-post_if,
}

-- The browser's calls that are about the loader of a request.
pub data Call : Type 0 where
  new_stream : NpStream → Call
  url_notify : Bool → Call
  redirect_notify : Bytes → Call

-- Whether a call answers the plugin: a stream comes, or the network has failed.
abbrev pub answers : Call → Bool
answers (new_stream s) = true
answers (url_notify network_error) = network_error
answers (redirect_notify url) = false

abbrev pub any_answers : List Call → Bool
any_answers [] = false
any_answers (c ∷ cs) = answers c || any_answers cs

-- One call for the loader, and one after the other.
unfoldable pub call : Surroundings → ℕ → Call → Net → Option (Net × List Posted)
call e h (new_stream s) w = do
  (w', posted, sent) ← np_new_stream e (record s { notify_data = h }) w
  some (w', posted)
call e h (url_notify network_error) w = do
  (g, posted) ← np_url_notify network_error h w.registry
  some (record w { registry = g }, posted)
call e h (redirect_notify url) w = do
  (g, told) ← np_url_redirect_notify url h w.registry
  some (record w { registry = g }, [])

unfoldable pub call_all : Surroundings → ℕ → List Call → Net → Option (Net × List Posted)
call_all e h [] w = some (w, [])
call_all e h (c ∷ cs) w = do
  (w', first) ← call e h c w
  (w'', rest) ← call_all e h cs w'
  some (w'', first ++ rest)

url_notify-change :
    (h : ℕ) (g : Registry Item)
    → (h == 0) ≡ false
    → np_url_notify true h g
      ≡ change loader_type h g []
          (on_loader (λ (l : UrlLoader). record l { ccb = no_callback }))
          (λ i. post_if (as_loader i).ccb (as_loader i).ccb_ml failed)
unfolding np_url_notify
url_notify-change h g real = rw real refl

redirect_notify-change :
    (url : Bytes) (h : ℕ) (g : Registry Item)
    → (h == 0) ≡ false
    → np_url_redirect_notify url h g
      ≡ change loader_type h g false (on_loader (to_redirect url)) (λ i. false)
unfolding np_url_redirect_notify
redirect_notify-change url h g real = rw real refl

changed-IsFree :
    (h : ℕ) (b : Item) (q : Res Item) (g g' : Registry Item)
    → IsFree loader_type h q g
    → find h g' ≡ (if h == h then some (record q { body = b }) else find h g)
    → IsFree loader_type h (record q { body = b }) g'
changed-IsFree h b q g g' free table = record {
  there = table ∙ ground arith;
  typed = free.typed;
  free = free.free;
  counted = free.counted;
}

module _ (e : Surroundings) (quiet : IsQuiet e) (alive : e.alive ≡ true) (f h : ℕ)
    (other : (f == e.do_nothing) ≡ false) (real : (h == 0) ≡ false) where
  -- A call that answers calls what there is to call, and no other one does.
  record Stepped (c : Call) (func : Option ℕ) (w : Net) (posted : List Posted) : Type 0 where
    counted : calls f posted ≡ (if answers c then is_call f func else 0)
    left : Option ℕ
    holds : Calls h left w
    settled : is_call f left ≡ (if answers c then 0 else is_call f func)

  abbrev Steps : Call → Net → Option ℕ → Type 0
  Steps c w func =
      (w' : Net) × (posted : List Posted) × (call e h c w ≡ some (w', posted))
      × Stepped c func w' posted

  call-Steps :
      (c : Call) (q : Res Item) (w : Net)
      → IsFree loader_type h q w.registry
      → IsApart h (as_loader q.body).post_data
      → Steps c w (as_loader q.body).ccb.func
  unfolding call np_url_notify
  call-Steps (new_stream s) q w free apart =
      let (w', posted, sent, is, a) =
        new_stream-Answers e quiet alive f h other (record s { notify_data = h }) q w refl real free
          apart in
      (
        w',
        posted,
        rw is refl,
        record { counted = a.counted; left = a.left; holds = a.holds; settled = a.settled },
      )
  call-Steps (url_notify true) q w free apart =
      let l : UrlLoader = as_loader q.body in
      let (g, is, table) =
        change-free loader_type h q w.registry []
          (on_loader (λ (l : UrlLoader). record l { ccb = no_callback }))
          (λ i. post_if (as_loader i).ccb (as_loader i).ccb_ml failed) free in
      (
        record w { registry = g },
        post_if l.ccb l.ccb_ml failed,
        rw (url_notify-change h w.registry real, is) refl,
        record {
          counted = calls-post_if f l.ccb l.ccb_ml failed;
          left = none;
          holds = (
            record q { body = loader (record l { ccb = no_callback }) },
            changed-IsFree h (loader (record l { ccb = no_callback })) q w.registry g free
                (table h),
            refl,
            apart,
          );
          settled = refl;
        },
      )
  call-Steps (url_notify false) q w free apart = (
    w,
    [],
    refl,
    record {
      counted = refl;
      left = (as_loader q.body).ccb.func;
      holds = (q, free, refl, apart);
      settled = refl;
    },
  )
  call-Steps (redirect_notify url) q w free apart =
      let l : UrlLoader = as_loader q.body in
      let (g, is, table) =
        change-free loader_type h q w.registry false (on_loader (to_redirect url)) (λ i. false)
          free in
      (
        record w { registry = g },
        [],
        rw (redirect_notify-change url h w.registry real, is) refl,
        record {
          counted = refl;
          left = l.ccb.func;
          holds = (
            record q { body = loader (to_redirect url l) },
            changed-IsFree h (loader (to_redirect url l)) q w.registry g free (table h),
            refl,
            apart,
          );
          settled = refl;
        },
      )

  call_all-once_from :
      (cs : List Call) (func : Option ℕ) (w : Net)
      → Calls h func w
      → (w' : Net) × (posted : List Posted) × (call_all e h cs w ≡ some (w', posted))
        × (calls f posted ≡ (if any_answers cs then is_call f func else 0))
  unfolding call_all
  call_all-once_from [] func w it = (w, [], refl, refl)
  call_all-once_from (c ∷ cs) func w it =
      let (q, free, has, apart) = it in
      let (w1, first, is, s) = call-Steps c q w free apart in
      let (w2, rest, later, count) = call_all-once_from cs s.left w1 s.holds in
      let same : is_call f (as_loader q.body).ccb.func ≡ is_call f func = ap (is_call f) has in
      (
        w2,
        first ++ rest,
        rw (is, later) refl,
        calls-append f first rest ∙ ground (arith, s.counted, s.settled, count, same),
      )

  -- However the browser's calls for a loader follow one another, streams that come, networks that
  -- fail and redirects that it is told of, they all return, and among the calls that they ask a
  -- message loop to make, the callback of the plugin that opened the loader is exactly once if one
  -- of them brings a stream or a failure of the network, also when the loader follows redirects, and
  -- not at all otherwise. What the message loop does with a call is not part of this. The loader is one
  -- that no thread is inside of, and whose body has no slice of the loader itself; the instance is
  -- alive; nothing else happens to the resources while a redirect is followed; and the callback is
  -- not the empty function that the program uses there.
  pub call_all-once :
      (cs : List Call) (w : Net)
      → Calls h (some f) w
      → (w' : Net) × (posted : List Posted) × (call_all e h cs w ≡ some (w', posted))
        × (calls f posted ≡ (if any_answers cs then 1 else 0))
  call_all-once cs w it =
      let (w', posted, is, count) = call_all-once_from cs (some f) w it in
      (w', posted, is, count ∙ ground arith)
