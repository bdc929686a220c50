-- ===== src/UrlLoader/Opening/Redirect.antt =====
-- Following a redirect with a loader of src/ppb_url_loader.c.
use freshplayerplugin.Base.{
  ℕ, ◌≡◌, refl, ap, ◌∙◌, true, Option, none, some, List, [], ◌∷◌, ◌==◌, if◌then◌else◌, is_some,
  Bool-cases, inl, inr, arith,
}
use freshplayerplugin.Resource.{Res, Registry, find, store}
use freshplayerplugin.Resource.Find.{acquired, find-store}
use freshplayerplugin.Resource.Access.Effects.{IsFree, with_resource-free}
use freshplayerplugin.Stream.{loader_type}
use freshplayerplugin.UrlRequest.{PostItem, get_method}
use freshplayerplugin.UrlRequest.PostData.{post_data_free}
use freshplayerplugin.UrlLoader.Sending.{Sent, get_url_notify, url_loader_open_ptac}
use freshplayerplugin.UrlLoader.Opening.{
  Surroundings, exchange, write_through, param_of, redirected, abort_stream, follow_redirect,
  joined,
}
use freshplayerplugin.UrlLoader.Opening.Tables.{
  IsQuiet, IsApart, freed, freed-apart, find-post_data_free, find-write_through, held, outcome,
  exchange-done,
}
use freshplayerplugin.UrlLoader.{
  Callback, UrlLoader, Item, loader, as_loader, Net, Result, bad_resource,
}

-- The loader of the address of the redirect alone.
abbrev pub moved_on : Surroundings → Callback → UrlLoader → UrlLoader
moved_on e callback l = record l {
  url = l.stream.redirect_url;
  method = get_method;
  status_line = none;
  headers = none;
  request_headers = none;
  post_data = none;
  np_stream = 0;
  ccb = callback;
  ccb_ml = e.current_loop;
  stream = record l.stream { read_pos = 0; file = e.temporary; redirect_url = none };
}

-- The table when the loader has been written, and the body of its request freed.
abbrev pub rewritten_table :
    ℕ → Res Item → Item → Option (List PostItem) → Registry Item → Registry Item
rewritten_table h q b p g = write_through h b (post_data_free p (store h (acquired q) g))

find-rewritten_table :
    (h j : ℕ) (q : Res Item) (b : Item) (p : Option (List PostItem)) (g : Registry Item)
    → IsApart h p
    → find j (rewritten_table h q b p g)
      ≡ (if h == j then some (held q b) else freed j p (find j g))
find-rewritten_table h j q b p g apart =
    let g1 : Registry Item = store h (acquired q) g in
    let g2 : Registry Item = post_data_free p g1 in
    let at_h : find h g2 ≡ some (acquired q) =
      find-post_data_free p h g1
      ∙ freed-apart h p (find h g1) apart
      ∙ find-store h h (acquired q) g
      ∙ ground arith in
    elim (Bool-cases (h == j)) [
      | inl e ↦ find-write_through h j b g2 ∙ rw (e, at_h) refl
      | inr n ↦
          find-write_through h j b g2
          ∙ rw n (
              find-post_data_free p j g1
              ∙ ap (freed j p) (find-store h j (acquired q) g ∙ rw n refl))
    ]

pub follow_redirect-done :
    (e : Surroundings) (h : ℕ) (q : Res Item) (callback : Callback) (w : Net)
    → IsFree loader_type h q w.registry
    → IsApart h (as_loader q.body).post_data
    → IsQuiet e
    → e.alive ≡ true
    → is_some callback.func ≡ true
    → let l : UrlLoader = as_loader q.body in
      let l' : UrlLoader = moved_on e callback l in
      let call : Sent = get_url_notify l.stream.redirect_url h in
      (w' : Net) × (follow_redirect e h callback w ≡ some (w', outcome (e.browser call), call ∷ []))
      × ((j : ℕ)
          → find j w'.registry ≡ (
              if h == j
              then some (record q { body = loader l' })
              else freed j l.post_data (find j w.registry)))
      × (w'.pdata ≡ abort_stream l.np_stream w.pdata)
      × (w'.pp_i ≡ w.pp_i)
      × (w'.vars ≡ w.vars)
unfolding follow_redirect url_loader_open_ptac redirected
follow_redirect-done e h q callback w free apart quiet alive told =
    let l : UrlLoader = as_loader q.body in
    let l' : UrlLoader = redirected e.temporary callback e.current_loop l in
    let call : Sent = get_url_notify l.stream.redirect_url h in
    let g : Registry Item = rewritten_table h q (loader l') l.post_data w.registry in
    let w1 : Net = record w { registry = g; pdata = abort_stream l.np_stream w.pdata } in
    let asked : url_loader_open_ptac e.query e.same_time e.open_file e.rounds e.browser e.alive
          (param_of h none none l')
        ≡ some (some (e.browser call), call ∷ []) =
      rw alive refl in
    let (w', is, table, pdata, pp_i, vars) =
      exchange-done e quiet (param_of h none none l') callback told (e.browser call) (call ∷ [])
        asked q (loader l') w1
        (find-rewritten_table h h q (loader l') l.post_data w.registry apart ∙ ground arith)
        free.free free.counted in
    let act : Res Item → Registry Item → Option (Net × Result × List Sent) = λ r x.
      let m : UrlLoader = as_loader r.body in
      let m' : UrlLoader = redirected e.temporary callback e.current_loop m in
      exchange e (param_of h none none m') callback (record w {
        registry = write_through h (loader m') (post_data_free m.post_data x);
        pdata = abort_stream m.np_stream w.pdata;
      }) in
    (
      w',
      ap joined
            (with_resource-free loader_type h q w.registry (some (w, bad_resource, [])) act free)
          ∙ is,
      λ j. table j ∙ elim (Bool-cases (h == j)) [
        | inl y ↦ rw y refl
        | inr n ↦
            rw n (find-rewritten_table h j q (loader l') l.post_data w.registry apart ∙ rw n refl)
      ],
      pdata,
      pp_i,
      vars,
    )
