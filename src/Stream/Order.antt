-- ===== src/Stream/Order.antt =====
-- Which bytes the readers of a response body get, and in which order.
use freshplayerplugin.Base.{
  ℕ, zero, suc, ◌+◌, ◌-◌, ◌≤◌, ◌≡◌, refl, sym, ap, ◌∙◌, none, some, List, [], ◌∷◌, ◌++◌, map, Bytes,
  length, take, drop, Option-cases, inl, inr, arith,
}
use freshplayerplugin.Stream.{ReadTask, Loader, Delivery, read_at, write_at, schedule}

pub append_assoc : {A : Type 0} (xs ys zs : List A) → (xs ++ ys) ++ zs ≡ xs ++ (ys ++ zs)
append_assoc [] ys zs = refl
append_assoc (x ∷ xs) ys zs = ap (◌∷◌ x) (append_assoc xs ys zs)

pub append_nil : {A : Type 0} (xs : List A) → xs ++ [] ≡ xs
append_nil [] = refl
append_nil (x ∷ xs) = ap (◌∷◌ x) (append_nil xs)

take_as_long : (n : ℕ) (f : Bytes) → take n f ≡ take (length (take n f)) f
take_as_long zero f = refl
take_as_long (suc n) [] = refl
take_as_long (suc n) (c ∷ f) = ap (◌∷◌ c) (take_as_long n f)

take_short : (n : ℕ) (f : Bytes) → length (take n f) ≤ length f
take_short zero f = omega arith
take_short (suc n) [] = omega arith
take_short (suc n) (c ∷ f) = omega (arith, take_short n f)

suc_plus : (p x : ℕ) → suc p + x ≡ suc (p + x)
suc_plus p x = omega arith

zero_plus : (x : ℕ) → x ≡ 0 + x
zero_plus x = omega arith

-- Reading on from a position gives the longer beginning.
take_more :
    (p n : ℕ) (f : Bytes)
    → p ≤ length f
    → (take p f ++ take n (drop p f) ≡ take (p + length (take n (drop p f))) f)
      × (p + length (take n (drop p f)) ≤ length f)
take_more zero n f h = (
  take_as_long n f ∙ ap (λ k. take k f) (zero_plus (length (take n f))),
  omega (arith, take_short n f),
)
take_more (suc p) n [] h = absurd (omega arith)
take_more (suc p) n (c ∷ f) h =
    let (e, l) = take_more p n f (omega arith) in
    (
      ap (◌∷◌ c) e ∙ ap (λ k. take k (c ∷ f)) (sym (suc_plus p (length (take n (drop p f))))),
      omega (arith, l),
    )

pub take_before : (p : ℕ) (f g : Bytes) → p ≤ length f → take p (f ++ g) ≡ take p f
take_before zero f g h = refl
take_before (suc p) [] g h = absurd (omega arith)
take_before (suc p) (c ∷ f) g h = ap (◌∷◌ c) (take_before p f g (omega arith))

take_whole : (f : Bytes) → take (length f) f ≡ f
take_whole [] = refl
take_whole (c ∷ f) = ap (◌∷◌ c) (take_whole f)

drop_nil : (n : ℕ) → ◌≡◌ {A = Bytes} (drop n []) []
drop_nil zero = refl
drop_nil (suc n) = refl

drop_past : (k : ℕ) (f : Bytes) → drop (length f + k) f ≡ []
drop_past k [] = drop_nil (0 + k)
drop_past k (c ∷ f) = ap (λ m. drop m (c ∷ f)) (suc_plus (length f) k) ∙ drop_past k f

pub write_at_end : (b f : Bytes) → write_at (length f) b f ≡ f ++ b
unfolding write_at
write_at_end b f =
    let nothing : length f - length f ≡ 0 = omega arith in
    rw (take_whole f, nothing, drop_past (length b) f, append_nil b) refl

-- The bytes that the callbacks have been given.
unfoldable pub contents : List Delivery → Bytes
contents [] = []
contents (d ∷ ds) = elim d.content [ none ↦ contents ds | some b ↦ b ++ contents ds ]

contents-one :
    (ds : List Delivery) (rt : ReadTask) (b : Bytes)
    → contents (ds ++ (record { task = rt; content = some b } ∷ [])) ≡ contents ds ++ b
unfolding contents
contents-one [] rt b = append_nil b
contents-one (d ∷ ds) rt b = elim (Option-cases d.content) [
  | inl e ↦ rw e (contents-one ds rt b)
  | inr (x, e) ↦ rw e (ap (◌++◌ x) (contents-one ds rt b) ∙ sym (append_assoc x (contents ds) b))
]

map-one :
    (ds : List Delivery) (d : Delivery) (ts : List ReadTask)
    → map (λ (x : Delivery). x.task) (ds ++ (d ∷ [])) ++ ts
      ≡ map (λ (x : Delivery). x.task) ds ++ (d.task ∷ ts)
map-one [] d ts = refl
map-one (x ∷ ds) d ts = ap (◌∷◌ x.task) (map-one ds d ts)

-- The readers have got just what was read of the file `f`, and the tasks of the answered ones with
-- the waiting ones are the requests in their order. The stream is no redirection.
pub record IsServed (f : Bytes) (requests : List ReadTask) (ds : List Delivery) (l : Loader)
    : Type 0 where
  pub opened : l.file ≡ some f
  pub direct : l.redirect_url ≡ none
  pub within : l.read_pos ≤ length f
  pub read : contents ds ≡ take l.read_pos f
  pub order : map (λ (d : Delivery). d.task) ds ++ l.read_tasks ≡ requests

-- The loader after the first waiting task, or a new one, has been served.
pub IsServed-deliver :
    (f : Bytes) (requests : List ReadTask) (ds : List Delivery) (l l' : Loader) (rt : ReadTask)
    (ts : List ReadTask)
    → l.read_pos ≤ length f
    → contents ds ≡ take l.read_pos f
    → map (λ (d : Delivery). d.task) ds ++ (rt ∷ ts) ≡ requests
    → l'.file ≡ some f
    → l'.redirect_url ≡ none
    → l'.read_pos ≡ l.read_pos + length (read_at l.read_pos rt.bytes_to_read f)
    → l'.read_tasks ≡ ts
    → IsServed f requests
        (ds ++ (record { task = rt; content = some (read_at l.read_pos rt.bytes_to_read f) } ∷ []))
        l'
unfolding read_at
IsServed-deliver f requests ds l l' rt ts within read order opened direct at_pos waiting =
    let b : Bytes = read_at l.read_pos rt.bytes_to_read f in
    let (more_read, inside) = take_more l.read_pos rt.bytes_to_read f within in
    record {
      opened = opened;
      direct = direct;
      within = rw at_pos inside;
      read = rw at_pos (contents-one ds rt b ∙ rw read more_read);
      order = rw waiting (map-one ds (record { task = rt; content = some b }) ts ∙ order);
    }

pub IsServed-schedule :
    (f : Bytes) (requests : List ReadTask) (ds : List Delivery) (l : Loader) (rt : ReadTask)
    → IsServed f requests ds l
    → IsServed f (requests ++ (rt ∷ [])) (ds ++ []) (schedule rt l)
IsServed-schedule f requests ds l rt s = rw (append_nil ds) (record {
  opened = s.opened;
  direct = s.direct;
  within = s.within;
  read = s.read;
  order =
      sym (append_assoc (map (λ (d : Delivery). d.task) ds) l.read_tasks (rt ∷ []))
      ∙ ap (λ x. x ++ (rt ∷ [])) s.order;
})
