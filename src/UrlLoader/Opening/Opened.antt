-- ===== src/UrlLoader/Opening/Opened.antt =====
-- The table of resources when a loader of src/ppb_url_loader.c has been opened for a request.
use freshplayerplugin.Base.{
  ℕ, ◌≡◌, refl, sym, ap, ◌∙◌, false, Option, none, some, List, ◌==◌, if◌then◌else◌, Bool-cases,
  ==_iff, inl, inr, arith,
}
use mathlib.Core.Path.{subst}
use mathlib.Core.Option
use freshplayerplugin.Resource.{Res, Registry, find, store, release}
use freshplayerplugin.Resource.Find.{acquired, find-store}
use freshplayerplugin.Resource.Access.Effects.{IsFree, released}
use freshplayerplugin.Stream.{loader_type}
use freshplayerplugin.UrlRequest.{request_type, PostItem}
use freshplayerplugin.UrlRequest.PostData.{post_data_free, post_data_duplicate}
use freshplayerplugin.UrlRequest.PostData.Balance.{nonempty_items, duplicate_items-copy}
use freshplayerplugin.UrlLoader.Opening.{write_through}
use freshplayerplugin.UrlLoader.Opening.Tables.{
  IsApart, freed, freed-apart, copied, copied-apart, find-post_data_free, find-post_data_duplicate,
  find-write_through, find-release, held,
}
use freshplayerplugin.UrlLoader.{Item}

pub IsFree-apart :
    (s t h i : ℕ) (q r : Res Item) (g : Registry Item)
    → IsFree s h q g
    → IsFree t i r g
    → (s == t) ≡ false
    → (h == i) ≡ false
IsFree-apart s t h i q r g a b n = elim (Bool-cases (h == i)) [
  | inl e ↦
      let same : h ≡ i = (==_iff h i).0 e in
      let one : q ≡ r = cc (a.there, b.there, same) in
      let types : s ≡ t = sym a.typed ∙ ap (λ (x : Res Item). x.resource_type) one ∙ b.typed in
      absurd (ground arith)
  | inr y ↦ y
]

pub copy_of :
    (p : Option (List PostItem)) (g : Registry Item)
    → (post_data_duplicate p g).0 ≡ Option.map nonempty_items p
unfolding post_data_duplicate
copy_of none g = refl
copy_of (some is) g = ap some (duplicate_items-copy is g)

-- No slice of the two bodies is of the loader or of the request.
pub record AreApart (h ri : ℕ) (old new : Option (List PostItem)) : Type 0 where
  pub old_loader : IsApart h old
  pub new_loader : IsApart h new
  pub old_request : IsApart ri old
  pub new_request : IsApart ri new

module _ (h ri : ℕ) (q r : Res Item) (g : Registry Item) (free : IsFree loader_type h q g)
    (asked : IsFree request_type ri r g) (old new : Option (List PostItem))
    (apart : AreApart h ri old new) (b : Item) where
  abbrev pub both : Registry Item
  both = store ri (acquired r) (store h (acquired q) g)

  abbrev pub bodies : Registry Item
  bodies = (post_data_duplicate new (post_data_free old both)).1

  abbrev pub opened : Registry Item
  opened = (release ri (write_through h b bodies)).0

  pub distinct : (h == ri) ≡ false
  distinct = IsFree-apart loader_type request_type h ri q r g free asked refl

  find-bodies : (j : ℕ) → find j bodies ≡ copied j new (freed j old (find j both))
  find-bodies j =
      find-post_data_duplicate new j (post_data_free old both)
      ∙ ap (copied j new) (find-post_data_free old j both)

  find-both :
      (j : ℕ)
      → find j both
        ≡ (if ri == j then some (acquired r) else if h == j then some (acquired q) else find j g)
  find-both j =
      find-store ri j (acquired r) (store h (acquired q) g)
      ∙ ap (λ x. if ri == j then some (acquired r) else x) (find-store h j (acquired q) g)

  bodies-apart : (j : ℕ) → IsApart j old → IsApart j new → find j bodies ≡ find j both
  bodies-apart j o n =
      find-bodies j
      ∙ copied-apart j new (freed j old (find j both)) n
      ∙ freed-apart j old (find j both) o

  pub find-opened_loader : find h opened ≡ some (held q b)
  find-opened_loader = ground (
    arith,
    distinct,
    find-release ri h (write_through h b bodies),
    find-write_through h h b bodies,
    bodies-apart h apart.old_loader apart.new_loader,
    find-both h,
  )

  find-opened_request : find ri opened ≡ find ri g
  find-opened_request = ground (
    arith,
    distinct,
    find-release ri ri (write_through h b bodies),
    find-write_through h ri b bodies,
    bodies-apart ri apart.old_request apart.new_request,
    find-both ri,
    released r (λ x. x) asked.free asked.counted,
    asked.there,
  )

  find-opened_other :
      (j : ℕ)
      → (h == j) ≡ false
      → (ri == j) ≡ false
      → find j opened ≡ copied j new (freed j old (find j g))
  find-opened_other j n m =
      find-release ri j (write_through h b bodies)
      ∙ rw m (
          find-write_through h j b bodies
          ∙ rw n (
              find-bodies j
              ∙ ap (λ x. copied j new (freed j old x)) (find-both j ∙ rw (m, n) refl)))

  pub find-opened :
      (j : ℕ)
      → find j opened ≡ (if h == j then some (held q b) else copied j new (freed j old (find j g)))
  find-opened j = elim (Bool-cases (h == j)) [
    | inl y ↦ rw y (ap (λ k. find k opened) (sym ((==_iff h j).0 y)) ∙ find-opened_loader)
    | inr n ↦ rw n (elim (Bool-cases (ri == j)) [
      | inl y ↦
          let same : ri ≡ j = (==_iff ri j).0 y in
          subst (λ k. find k opened ≡ copied k new (freed k old (find k g))) same
            (find-opened_request
              ∙ sym (freed-apart ri old (find ri g) apart.old_request)
              ∙ sym (copied-apart ri new (freed ri old (find ri g)) apart.new_request))
      | inr m ↦ find-opened_other j n m
    ])
  ]
