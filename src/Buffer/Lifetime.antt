-- ===== src/Buffer/Lifetime.antt =====
-- How long the memory of a buffer of src/ppb_buffer.c is there.
use freshplayerplugin.Base.{
  ℕ, ◌≡◌, ap, ◌∙◌, true, false, Option, none, some, ◌==◌, if◌then◌else◌, incr, decr-incr,
  incr_positive, is_nonpos, arith,
}
use freshplayerplugin.Resource.{
  Res, Registry, find, get_type, unknown_type, store, add_ref, unref, release, unlock,
}
use freshplayerplugin.Resource.Find.{
  acquired, more, less, unlocked, find-add_ref, find-unref, find-store, find-unlock,
}
use freshplayerplugin.Resource.Access.Effects.{IsFree, with_resource-free}
use freshplayerplugin.Buffer.{Buffer, buffer_type, buffer_map, buffer_unmap, is_buffer}

-- The entry of a buffer that is acquired, referenced once more, and released.
kept :
    (q : Res Buffer)
    → is_nonpos q.ref_cnt ≡ false
    → q.locked ≡ false
    → less (unlocked (more (some (acquired q)))) ≡ more (some q)
kept q live free = ground (arith, decr-incr (incr q.ref_cnt), incr_positive q.ref_cnt live)

given_back : (q : Res Buffer) → is_nonpos q.ref_cnt ≡ false → less (more (some q)) ≡ some q
given_back q live = ground (arith, decr-incr q.ref_cnt)

is_buffer-typed :
    (h : ℕ) (q : Res Buffer) (g : Registry Buffer)
    → find h g ≡ some q
    → q.resource_type ≡ buffer_type
    → is_buffer h g ≡ true
unfolding is_buffer get_type
is_buffer-typed h q g there typed =
    ap
      (λ (o : Option (Res Buffer)).
        (elim o [ none ↦ unknown_type | some r ↦ r.resource_type ]) == buffer_type)
      there
    ∙ ap (λ t. t == buffer_type) typed

find-mapped :
    (h j : ℕ) (q : Res Buffer) (g : Registry Buffer)
    → IsFree buffer_type h q g
    → find j (release h (add_ref h (store h (acquired q) g)).0).0
      ≡ (if h == j then more (some q) else find j g)
unfolding release
find-mapped h j q g free =
    let g1 : Registry Buffer = store h (acquired q) g in
    let g2 : Registry Buffer = (add_ref h g1).0 in
    ground (
      arith,
      kept q free.counted free.free,
      find-unref h j (unlock h g2),
      find-unlock h h g2,
      find-unlock h j g2,
      find-add_ref h h g1,
      find-add_ref h j g1,
      find-store h h (acquired q) g,
      find-store h j (acquired q) g,
    )

-- Mapping a buffer that no thread is inside of gives its memory and takes one reference: a plugin
-- that then drops a reference of its own finds the buffer as it was before; unmapping it instead
-- undoes the mapping. Neither changes another resource.
pub buffer_map-Lifetime :
    (h : ℕ) (q : Res Buffer) (g : Registry Buffer)
    → IsFree buffer_type h q g
    → (g' : Registry Buffer) × (buffer_map h g ≡ some (g', q.body.content))
      × ((j : ℕ) → find j g' ≡ (if h == j then more (some q) else find j g))
      × ((j : ℕ) → find j (unref h g').0 ≡ find j g)
      × ((j : ℕ) → find j (buffer_unmap h g') ≡ find j g)
unfolding buffer_map buffer_unmap
buffer_map-Lifetime h q g free =
    let g1 : Registry Buffer = store h (acquired q) g in
    let g2 : Registry Buffer = (release h (add_ref h g1).0).0 in
    let table : (j : ℕ) → find j g2 ≡ (if h == j then more (some q) else find j g) =
      λ j. find-mapped h j q g free in
    let dropped : (j : ℕ) → find j (unref h g2).0 ≡ find j g = λ j.
      ground (arith, find-unref h j g2, table h, table j, given_back q free.counted, free.there) in
    let typed : is_buffer h g2 ≡ true =
      is_buffer-typed h (record q { ref_cnt = incr q.ref_cnt }) g2 (table h ∙ ground arith)
        free.typed in
    (
      g2,
      with_resource-free buffer_type h q g (g, none)
          (λ r x. ((release h (add_ref h x).0).0, r.body.content)) free,
      table,
      dropped,
      λ j. rw typed (dropped j),
    )
