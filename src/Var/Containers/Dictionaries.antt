-- ===== src/Var/Containers/Dictionaries.antt =====
-- Dictionaries of src/ppb_var.c: what is stored is found again, and the counts cover the stored
-- references, through the release of the value that a replacement drives out.
use freshplayerplugin.Base.{
  ℕ, ◌+◌, ◌≤◌, ◌<◌, ◌≡◌, refl, ap, ◌∙◌, Bool, true, Option, none, some, List, [], ◌∷◌, map,
  if◌then◌else◌, Bytes, equal, equal_iff, c_string, Option-cases, inl, inr, arith,
}
use freshplayerplugin.Base.Assoc.{lookup-insert, sum_by_le}
use freshplayerplugin.Var.{
  PpVar, undefined, string, dictionary, VarS, VarTable, countable_id, get_var_s, put, held, add_ref,
  release,
}
use freshplayerplugin.Var.Claims.{
  Covered, Covered-eq, hits, count, count-append, holds, places, places-put, add_ref-Covered,
  release-Covered,
}
use freshplayerplugin.Var.Contents.{add_ref-contents, release-contents}
use freshplayerplugin.Var.Values.{var_to_utf8}
use freshplayerplugin.Var.Containers.{
  dict_find, dict_replace, dictionary_get, dictionary_set, release_old,
}

abbrev vals : List (Bytes × PpVar) → List PpVar
vals d = map (λ (p : Bytes × PpVar). p.1) d

abbrev old_hits : ℕ → Option PpVar → ℕ
old_hits q none = 0
old_hits q (some v) = hits q v

dict_find-replace :
    (k j : Bytes) (v : PpVar) (d : List (Bytes × PpVar))
    → dict_find j (dict_replace k v d) ≡ (if equal k j then some v else dict_find j d)
unfolding dict_find dict_replace
dict_find-replace k j v [] = refl
dict_find-replace k j v ((i, w) ∷ d) =
    ground (arith, equal_iff k j, equal_iff i k, equal_iff i j, dict_find-replace k j v d)

count-replace :
    (q : ℕ) (k : Bytes) (v : PpVar) (d : List (Bytes × PpVar))
    → count q (vals (dict_replace k v d)) + old_hits q (dict_find k d) ≡ count q (vals d) + hits q v
unfolding count dict_find dict_replace
count-replace q k v [] = omega arith
count-replace q k v ((i, w) ∷ d) = ground (arith, count-replace q k v d)

count-find :
    (q : ℕ) (k : Bytes) (d : List (Bytes × PpVar)) → old_hits q (dict_find k d) ≤ count q (vals d)
unfolding count dict_find
count-find q k [] = omega arith
count-find q k ((i, w) ∷ d) = ground (arith, count-find q k d)

-- A claimed variable is alive.
alive :
    (i : ℕ) (t : VarTable) (c : ℕ → ℕ)
    → 0 < c i
    → Covered t c
    → (e : VarS) × (get_var_s i t ≡ some e)
alive i t c claimed cov = elim (Option-cases (get_var_s i t)) [
  | inl gone ↦ absurd (ground (arith, cov i))
  | inr there ↦ there
]

release_old-Covered :
    (old : Option PpVar) (t : VarTable) (c : ℕ → ℕ)
    → Covered t (λ q. old_hits q old + c q)
    → (t' : VarTable) × (release_old old t ≡ some t') × Covered t' c
unfolding release_old
release_old-Covered none t c cov = (t, refl, Covered-eq t (λ q. 0 + c q) c (λ q. omega arith) cov)
release_old-Covered (some v) t c cov = release-Covered v t c cov

release_old-dict :
    (old : Option PpVar) (i : ℕ) (t t' : VarTable) (e e' : VarS)
    → release_old old t ≡ some t'
    → get_var_s i t ≡ some e
    → get_var_s i t' ≡ some e'
    → e'.dict ≡ e.dict
unfolding release_old
release_old-dict none i t t' e e' r h h' = ground arith
release_old-dict (some v) i t t' e e' r h h' =
    let (e0, there, same) = release-contents v i t t' e' r h' in ground arith

-- The table of a dictionary after the replacement, before anything is counted.
replaced-Covered :
    (i : ℕ) (k : Bytes) (v : PpVar) (t : VarTable) (e : VarS) (c : ℕ → ℕ)
    → get_var_s i t ≡ some e
    → Covered t (λ q. hits q v + c q)
    → Covered
        (put i (record e { dict = dict_replace k v e.dict }) t)
        (λ q. old_hits q (dict_find k e.dict) + c q)
unfolding held
replaced-Covered i k v t e c live cov q =
    let e1 : VarS = record e { dict = dict_replace k v e.dict } in
    ground (
      arith,
      cov q,
      cov i,
      lookup-insert i q e1 t.var_ht,
      places-put q i e1 e t live,
      count-append q e.items (vals e.dict),
      count-append q e.items (vals e1.dict),
      count-replace q k v e.dict,
    )

-- The dictionary still holds the new value after the release of the old one.
kept-places :
    (i q : ℕ) (k : Bytes) (v : PpVar) (t : VarTable) (e : VarS)
    → get_var_s i t ≡ some e
    → dict_find k e.dict ≡ some v
    → hits q v ≤ places q t
unfolding held
kept-places i q k v t e live found = omega (
  arith,
  rw found at (count-find q k e.dict),
  count-append q e.items (vals e.dict),
  rw live at (sum_by_le (holds q) i t.var_ht),
)

-- The table after the new value has its reference: the old value, if there was one, is released
-- before that.
abbrev pub Released : Option PpVar → PpVar → VarTable → VarTable → Type 0
Released none v t after = after ≡ add_ref v t
Released (some old) v t after = (t' : VarTable) × (release old t ≡ some t') × (after ≡ add_ref v t')

release_old-Released :
    (old : Option PpVar) (v : PpVar) (t t' : VarTable)
    → release_old old t ≡ some t'
    → Released old v t (add_ref v t')
unfolding release_old
release_old-Released none v t t' e = ground arith
release_old-Released (some old) v t t' e = (t', e, refl)

pub record SetResult (t : VarTable) (i : ℕ) (e : VarS) (key : Bytes) (v : PpVar) (c : ℕ → ℕ)
    (r : Option (VarTable × Bool)) : Type 0 where
  pub after : VarTable
  pub entry : VarS
  pub done : r ≡ some (after, true)
  pub alive_after : get_var_s i after ≡ some entry
  pub finds :
      (k : Bytes) → dict_find k entry.dict ≡ (if equal key k then some v else dict_find k e.dict)
  pub frees :
      Released
        (dict_find key e.dict)
        v
        (put i (record e { dict = dict_replace key v e.dict }) t)
        after
  pub covers : Covered after (λ q. hits q v + c q)

-- `ppb_var_dictionary_set` with a string key, on a dictionary that the caller has a claim on, of a
-- value that the caller has a further claim on if it is counted, in a table whose counts cover all
-- references: it succeeds; the dictionary is alive, finds the new value at the key, which is the
-- C string of the key variable, and the same as before at every other; and the counts cover all
-- references again, the caller's claims unchanged. The value that was replaced, if there
-- was one, is released in the table that has the new one, before that gets its reference.
pub dictionary_set-SetResult :
    (i j : ℕ) (v : PpVar) (t : VarTable) (e : VarS) (c : ℕ → ℕ)
    → get_var_s i t ≡ some e
    → 0 < c i
    → Covered t (λ q. hits q v + c q)
    → SetResult t i e
        (c_string (var_to_utf8 (string j) t))
        v
        c
        (dictionary_set (dictionary i) (string j) v t)
unfolding dictionary_set
dictionary_set-SetResult i j v t e c live claimed cov =
    let key : Bytes = c_string (var_to_utf8 (string j) t) in
    let e1 : VarS = record e { dict = dict_replace key v e.dict } in
    let t1 : VarTable = put i e1 t in
    let live1 : get_var_s i t1 ≡ some e1 = ground (arith, lookup-insert i i e1 t.var_ht) in
    let (t2, freed, cov2) =
      release_old-Covered (dict_find key e.dict) t1 c (replaced-Covered i key v t e c live cov) in
    let (e2, live2) = alive i t2 c claimed cov2 in
    let dict2 = release_old-dict (dict_find key e.dict) i t1 t2 e1 e2 freed live1 live2 in
    let found : dict_find key e2.dict ≡ some v =
      ap (dict_find key) dict2
      ∙ ground (arith, dict_find-replace key key v e.dict, equal_iff key key) in
    let (e3, live3, same) = add_ref-contents v i t2 {e = e2} live2 in
    record {
      frees = release_old-Released (dict_find key e.dict) v t1 t2 freed;
      after = add_ref v t2;
      entry = e3;
      done = rw live (rw freed);
      alive_after = live3;
      finds = λ k. ap (dict_find k) (same.1 ∙ dict2) ∙ dict_find-replace key k v e.dict;
      covers =
          add_ref-Covered v t2 c
            (λ q counted. ground (arith, rw counted at (kept-places i q key v t2 e2 live2 found)))
            cov2;
    }

-- `ppb_var_dictionary_get` with a string key, on a live dictionary: the result is the value stored
-- under the key's C string, undefined if there is none; its caller has one more claim on it, and
-- the counts cover all references.
pub dictionary_get-Covered :
    (i j : ℕ) (t : VarTable) (e : VarS) (c : ℕ → ℕ)
    → get_var_s i t ≡ some e
    → Covered t c
    → (t' : VarTable) × (v : PpVar) × (dictionary_get (dictionary i) (string j) t ≡ some (t', v))
      × (v ≡ elim (dict_find (c_string (var_to_utf8 (string j) t)) e.dict) [
        | none ↦ undefined
        | some w ↦ w
      ])
      × Covered t' (λ q. hits q v + c q)
unfolding dictionary_get
dictionary_get-Covered i j t e c live cov =
    let key : Bytes = c_string (var_to_utf8 (string j) t) in
    elim (Option-cases (dict_find key e.dict)) [
      | inl missing ↦ (
        t,
        undefined,
        rw live (rw missing),
        rw missing,
        unfold countable_id in Covered-eq t c (λ q. 0 + c q) (λ q. omega arith) cov,
      )
      | inr (v, found) ↦ (
        add_ref v t,
        v,
        rw live (rw found),
        rw found,
        add_ref-Covered v t c
            (λ q counted. ground (arith, rw counted at (kept-places i q key v t e live found))) cov,
      )
    ]
