-- ===== src/UrlLoader/Responses/Kept.antt =====
-- How a response's description of src/ppb_url_response_info.c keeps its loader.
use freshplayerplugin.Base.{
  ℕ, ◌≡◌, refl, ap, ◌∙◌, false, Option, some, ◌==◌, if◌then◌else◌, ◌>>=◌, is_nonpos, decr-incr,
  incr_positive, arith,
}
use freshplayerplugin.Resource.{Res, Registry, find, store, release, allocate, add_ref, unref}
use freshplayerplugin.Resource.Find.{
  new_res, acquired, more, less, unlocked, find-store, find-add_ref, find-unref, find-allocate,
}
use freshplayerplugin.Resource.Access.{finish}
use freshplayerplugin.Resource.Access.Effects.{
  IsFree, IsFree-allocate, with_resource-free, released, find-release_free,
}
use freshplayerplugin.Var.{VarTable, PpVar, undefined}
use freshplayerplugin.Stream.{loader_type}
use freshplayerplugin.UrlLoader.Opening.{joined}
use freshplayerplugin.UrlLoader.Opening.Tables.{find-release}
use freshplayerplugin.UrlLoader.Responses.{
  response_type, describe, get_response_info, ResponseProperty, property_of, loader_behind,
  get_property,
}
use freshplayerplugin.UrlLoader.{Item, zeroed, response, as_loader}

more_of :
    (q : Res Item)
    → is_nonpos q.ref_cnt ≡ false
    → q.locked ≡ false
    → less (unlocked (more (some (acquired q)))) ≡ more (some q)
more_of q live free = ground (arith, decr-incr (acquired q).ref_cnt, incr_positive q.ref_cnt live)

less-more : (q : Res Item) → is_nonpos q.ref_cnt ≡ false → less (more (some q)) ≡ some q
less-more q live = ground (arith, decr-incr q.ref_cnt)

module _ (h : ℕ) (q : Res Item) (g : Registry Item) (free : IsFree loader_type h q g)
    (fresh : (g.res_tbl_next == h) ≡ false) where
  abbrev pub k : ℕ
  k = g.res_tbl_next

  -- the new description
  abbrev pub described : Res Item
  described = new_res (response h) response_type q.instance_ptr k

  abbrev blank : Res Item
  blank = new_res zeroed response_type q.instance_ptr k

  abbrev allocated : Registry Item
  allocated = (allocate zeroed response_type q.instance_ptr (store h (acquired q) g)).0

  abbrev referred : Registry Item
  referred = (add_ref h (store k (acquired blank) allocated)).0

  abbrev filled_in : Registry Item
  filled_in = finish k (λ _. response h) (acquired blank) referred

  abbrev pub with_response : Registry Item
  with_response = (release h filled_in).0

  get_response_info-is : get_response_info h g ≡ some (with_response, k)
  unfolding get_response_info allocate
  get_response_info-is =
      ap joined (with_resource-free loader_type h q g (some (g, 0)) (λ l x. describe h l x) free)
      ∙ with_resource-free response_type k blank allocated ((release h allocated).0, 0)
          (λ r x. ((release h (finish k (λ _. response h) r (add_ref h x).0)).0, k))
          (IsFree-allocate zeroed response_type q.instance_ptr (store h (acquired q) g))

  find-allocated :
      (j : ℕ)
      → find j allocated
        ≡ (if k == j then some blank else if h == j then some (acquired q) else find j g)
  find-allocated j =
      find-allocate zeroed response_type q.instance_ptr j (store h (acquired q) g)
      ∙ ap (λ x. if k == j then some blank else x) (find-store h j (acquired q) g)

  find-referred :
      (j : ℕ)
      → find j referred ≡ (
          if k == j
          then some (acquired blank)
          else if h == j
          then more (some (acquired q))
          else find j g)
  find-referred j =
      let x : Registry Item = store k (acquired blank) allocated in
      ground (
        arith,
        fresh,
        find-add_ref h j x,
        find-store k j (acquired blank) allocated,
        find-store k h (acquired blank) allocated,
        find-allocated j,
        find-allocated h,
      )

  find-filled_in : (j : ℕ) → find j filled_in ≡ (if k == j then some described else find j referred)
  find-filled_in j =
      let x : Registry Item = store k (record (acquired blank) { body = response h }) referred in
      ground (
        arith,
        find-release k j x,
        find-store k j (record (acquired blank) { body = response h }) referred,
        find-store k k (record (acquired blank) { body = response h }) referred,
        released blank (λ _. response h) refl refl,
      )

  find-with_response :
      (j : ℕ)
      → find j with_response
        ≡ (if k == j then some described else if h == j then more (some q) else find j g)
  find-with_response j = ground (
    arith,
    fresh,
    find-release h j filled_in,
    find-filled_in j,
    find-filled_in h,
    find-referred j,
    find-referred h,
    more_of q free.counted free.free,
  )

  -- The table without the reference of the plugin.
  abbrev pub left_alone : Registry Item
  left_alone = (unref h with_response).0

  find-left_alone : (j : ℕ) → find j left_alone ≡ (if k == j then some described else find j g)
  find-left_alone j = ground (
    arith,
    fresh,
    find-unref h j with_response,
    find-with_response j,
    find-with_response h,
    less-more q free.counted,
    free.there,
  )

  described-IsFree : IsFree response_type k described left_alone
  described-IsFree = record {
    there = find-left_alone k ∙ ground arith;
    typed = refl;
    free = refl;
    counted = refl;
  }

  behind : loader_behind (response h) (store k (acquired described) left_alone) ≡ as_loader q.body
  behind =
      let there : find h (store k (acquired described) left_alone) ≡ some q =
        find-store k h (acquired described) left_alone
        ∙ ground (arith, fresh, find-left_alone h, free.there) in
      rw (there, loader_behind) refl

  -- The description of the response of a loader that no thread is inside of, whether it has been
  -- opened or not, is a new resource, which
  -- holds a reference to the loader and changes no other resource. If the plugin then drops a
  -- reference of its own, the loader is still there as it was before, even if that was the only one,
  -- and each property that the description is asked for is read from it, the description's lock
  -- being given back.
  pub get_response_info-Kept :
      (property : ResponseProperty) (t t' : VarTable) (v : PpVar)
      → property_of property (as_loader q.body) t ≡ some (t', v)
      → (get_response_info h g ≡ some (with_response, k))
        × ((j : ℕ)
            → find j (unref h with_response).0 ≡ (if k == j then some described else find j g))
        × (g' : Registry Item) × (get_property k property t (unref h with_response).0
            ≡ some (g', t', v))
        × ((j : ℕ) → find j g' ≡ find j (unref h with_response).0)
  unfolding get_property
  get_response_info-Kept property t t' v reads =
      let act : Res Item → Registry Item → Option (Registry Item × VarTable × PpVar) = λ r x. (do
        (u, value) ← property_of property (loader_behind r.body x) t
        some ((release k x).0, u, value)) in
      let x : Registry Item = store k (acquired described) left_alone in
      (
        get_response_info-is,
        find-left_alone,
        (release k x).0,
        ap joined (
              with_resource-free response_type k described left_alone
                (some (left_alone, t, undefined)) act described-IsFree)
            ∙ rw (behind, reads) refl,
        λ j. find-release_free response_type k j described left_alone described-IsFree,
      )
