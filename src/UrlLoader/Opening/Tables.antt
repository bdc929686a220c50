-- ===== src/UrlLoader/Opening/Tables.antt =====
-- The table of resources when a loader of src/ppb_url_loader.c is opened or follows a redirect.
use freshplayerplugin.Base.{
  ℕ, ◌≡◌, refl, true, false, Option, none, some, List, [], ◌==◌, if◌then◌else◌, is_some, is_nonpos,
  decr-incr, incr_positive, arith,
}
use freshplayerplugin.Resource.{Res, Registry, find, store, release, unlock, add_ref, unref}
use freshplayerplugin.Resource.Find.{
  more, less, unlocked, acquired, find-store, find-add_ref, find-unref, find-unlock,
}
use freshplayerplugin.UrlRequest.{PostItem}
use freshplayerplugin.UrlRequest.PostData.{post_data_free, post_data_duplicate}
use freshplayerplugin.UrlRequest.PostData.Balance.{
  times, slices, find-free_items, find-duplicate_items,
}
use freshplayerplugin.UrlLoader.Sending.{Sent, OpenParam, url_loader_open_ptac}
use freshplayerplugin.UrlLoader.Opening.{Surroundings, exchange, conclude, write_through}
use freshplayerplugin.UrlLoader.{Callback, Item, Net, Result, pending, refused}

abbrev pub items_of : Option (List PostItem) → List PostItem
items_of none = []
items_of (some is) = is

-- The entry of a handle after the body of a request has been freed, or copied.
abbrev pub freed : ℕ → Option (List PostItem) → Option (Res Item) → Option (Res Item)
freed j p o = times (slices j (items_of p)) less o

abbrev pub copied : ℕ → Option (List PostItem) → Option (Res Item) → Option (Res Item)
copied j p o = times (slices j (items_of p)) more o

pub find-post_data_free :
    (p : Option (List PostItem)) (j : ℕ) (g : Registry Item)
    → find j (post_data_free p g) ≡ freed j p (find j g)
unfolding post_data_free times slices
find-post_data_free none j g = refl
find-post_data_free (some is) j g = find-free_items is j g

pub find-post_data_duplicate :
    (p : Option (List PostItem)) (j : ℕ) (g : Registry Item)
    → find j (post_data_duplicate p g).1 ≡ copied j p (find j g)
unfolding post_data_duplicate times slices
find-post_data_duplicate none j g = refl
find-post_data_duplicate (some is) j g = find-duplicate_items is j g

-- A handle that no item is a slice of.
abbrev pub IsApart : ℕ → Option (List PostItem) → Type 0
IsApart j p = slices j (items_of p) ≡ 0

pub freed-apart :
    (j : ℕ) (p : Option (List PostItem)) (o : Option (Res Item)) → IsApart j p → freed j p o ≡ o
unfolding times
freed-apart j p o e = rw e refl

pub copied-apart :
    (j : ℕ) (p : Option (List PostItem)) (o : Option (Res Item)) → IsApart j p → copied j p o ≡ o
unfolding times
copied-apart j p o e = rw e refl

abbrev pub with_body : Item → Option (Res Item) → Option (Res Item)
with_body b none = none
with_body b (some r) = some (record r { body = b })

write_through-found :
    (h j : ℕ) (b : Item) (g : Registry Item) (o : Option (Res Item))
    → find h g ≡ o
    → find j (elim o [ none ↦ g | some r ↦ store h (record r { body = b }) g ])
      ≡ (if h == j then with_body b o else find j g)
write_through-found h j b g none e = ground arith
write_through-found h j b g (some r) e = find-store h j (record r { body = b }) g

pub find-write_through :
    (h j : ℕ) (b : Item) (g : Registry Item)
    → find j (write_through h b g) ≡ (if h == j then with_body b (find h g) else find j g)
unfolding write_through
find-write_through h j b g = write_through-found h j b g (find h g) refl

pub find-release :
    (h j : ℕ) (g : Registry Item)
    → find j (release h g).0 ≡ (if h == j then less (unlocked (find h g)) else find j g)
unfolding release
find-release h j g =
    ground (arith, find-unref h j (unlock h g), find-unlock h h g, find-unlock h j g)

-- The loader's entry before the exchange with the browser, and after it.
abbrev pub held : Res Item → Item → Res Item
held q b = record (acquired q) { body = b }

held_and_back :
    (q : Res Item) (b : Item)
    → q.locked ≡ false
    → is_nonpos q.ref_cnt ≡ false
    → less (less (unlocked (more (some (held q b))))) ≡ some (record q { body = b })
held_and_back q b free live =
    ground (arith, decr-incr q.ref_cnt, decr-incr (held q b).ref_cnt, incr_positive q.ref_cnt live)

-- What the caller returns once the browser has answered a call with a number.
abbrev pub outcome : ℕ → Result
outcome retval = if retval == 0 then pending else refused

conclude-callback :
    (h retval : ℕ) (callback : Callback) (seen : List (Registry Item)) (w : Net)
    → is_some callback.func ≡ true
    → conclude h (some retval) callback seen w ≡ some (w, outcome retval)
unfolding conclude
conclude-callback h retval callback seen w e = ground arith

-- Nothing but the call itself happens to the resources until the browser's thread is done.
abbrev pub IsQuiet : Surroundings → Type 0
IsQuiet e = (g : Registry Item) (j : ℕ) → find j (e.meanwhile g) ≡ find j g

module _ (e : Surroundings) (quiet : IsQuiet e) (p : OpenParam) (callback : Callback)
    (told : is_some callback.func ≡ true) (retval : ℕ) (sent : List Sent)
    (asked : url_loader_open_ptac e.query e.same_time e.open_file e.rounds e.browser e.alive p
      ≡ some (some retval, sent)) where
  abbrev after_call : Registry Item → Registry Item
  after_call g = (unref p.loader (e.meanwhile (release p.loader (add_ref p.loader g).0).0)).0

  find-after_call :
      (q : Res Item) (b : Item) (g : Registry Item) (j : ℕ)
      → find p.loader g ≡ some (held q b)
      → q.locked ≡ false
      → is_nonpos q.ref_cnt ≡ false
      → find j (after_call g) ≡ (if p.loader == j then some (record q { body = b }) else find j g)
  find-after_call q b g j there free live =
      let g1 : Registry Item = (add_ref p.loader g).0 in
      let g2 : Registry Item = (release p.loader g1).0 in
      ground (
        arith,
        find-unref p.loader j (e.meanwhile g2),
        quiet g2 j,
        quiet g2 p.loader,
        find-release p.loader j g1,
        find-release p.loader p.loader g1,
        find-add_ref p.loader j g,
        find-add_ref p.loader p.loader g,
        held_and_back q b free live,
      )

  -- The exchange with the browser gives back what it takes of the loader, whose lock it gives back
  -- too.
  pub exchange-done :
      (q : Res Item) (b : Item) (w : Net)
      → find p.loader w.registry ≡ some (held q b)
      → q.locked ≡ false
      → is_nonpos q.ref_cnt ≡ false
      → (w' : Net) × (exchange e p callback w ≡ some (w', outcome retval, sent))
        × ((j : ℕ)
            → find j w'.registry
              ≡ (if p.loader == j then some (record q { body = b }) else find j w.registry))
        × (w'.pdata ≡ w.pdata)
        × (w'.pp_i ≡ w.pp_i)
        × (w'.vars ≡ w.vars)
  unfolding exchange
  exchange-done q b w there free live =
      let w' : Net = record w { registry = after_call w.registry } in
      (
        w',
        rw (asked, conclude-callback p.loader retval callback e.seen w' told) refl,
        λ j. find-after_call q b w.registry j there free live,
        refl,
        refl,
        refl,
      )
