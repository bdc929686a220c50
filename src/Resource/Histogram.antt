-- ===== src/Resource/Histogram.antt =====
-- The resource histogram of `pp_resource_unref`: `count_resources_cb` over the whole table.
use freshplayerplugin.Base.{
  ℕ, zero, suc, ◌+◌, ◌<◌, ◌≡◌, refl, Bool, none, some, List, [], ◌∷◌, ◌==◌, leb, if◌then◌else◌, bit,
  get_elem?, length, length-replicate, replicate, arith,
}
use freshplayerplugin.Base.Assoc.{Assoc}
use freshplayerplugin.Resource.{Res, types_count, bump, bucket, count_resources}

abbrev pub row : List ℕ → ℕ → ℕ
row l k = elim (get_elem? l k) [ none ↦ 0 | some n ↦ n ]

row-bump : (b k : ℕ) (l : List ℕ) → b < length l → row (bump b l) k ≡ row l k + bit (b == k)
unfolding bump
row-bump zero k [] h = elim h [ ]
row-bump (suc b) k [] h = elim h [ ]
row-bump zero zero (n ∷ l) h = ground arith
row-bump zero (suc k) (n ∷ l) h = ground arith
row-bump (suc b) zero (n ∷ l) h = ground arith
row-bump (suc b) (suc k) (n ∷ l) h = ground (arith, row-bump b k l (omega arith))

length-bump : (b : ℕ) (l : List ℕ) → length (bump b l) ≡ length l
unfolding bump
length-bump zero [] = refl
length-bump (suc b) [] = refl
length-bump zero (n ∷ l) = refl
length-bump (suc b) (n ∷ l) = omega (arith, length-bump b l)

-- The types that a row of the histogram shows: its own, and in the last row every unknown one.
abbrev pub belongs : ℕ → ℕ → Bool
belongs k type = if k == types_count then leb types_count type else type == k

bucket-belongs : (type k : ℕ) → k < types_count + 1 → bit (bucket type == k) ≡ bit (belongs k type)
unfolding bucket
bucket-belongs type k h = ground arith

bucket-lt : (type : ℕ) → bucket type < types_count + 1
unfolding bucket
bucket-lt type = ground arith

row-replicate : (n k : ℕ) → row (replicate n 0) k ≡ 0
row-replicate zero k = refl
row-replicate (suc n) zero = refl
row-replicate (suc n) (suc k) = row-replicate n k

module _ {A : Type 0} where
  -- How many resources of the table belong to row `k`.
  unfoldable pub tally : ℕ → Assoc (Res A) → ℕ
  tally k [] = 0
  tally k ((h, r) ∷ m) = bit (belongs k r.resource_type) + tally k m

  row-count_resources :
      (m : Assoc (Res A)) (counts : List ℕ) (k : ℕ)
      → length counts ≡ types_count + 1
      → k < types_count + 1
      → row (count_resources counts m) k ≡ row counts k + tally k m
  unfolding count_resources tally
  row-count_resources [] counts k l h = omega arith
  row-count_resources ((j, r) ∷ m) counts k l h =
      let b = bucket r.resource_type in
      omega (
        arith,
        row-count_resources m (bump b counts) k (omega (arith, length-bump b counts)) h,
        row-bump b k counts (omega (arith, bucket-lt r.resource_type)),
        bucket-belongs r.resource_type k h,
      )

  -- From zeroed counters, `count_resources_cb` over the whole table gives in each row below the
  -- last the number of resources of that type, and in the last row the number of resources whose
  -- type is not in the enumeration: each resource is counted in exactly one row.
  pub count_resources-tally :
      (m : Assoc (Res A)) (k : ℕ)
      → k < types_count + 1
      → row (count_resources (replicate (types_count + 1) 0) m) k ≡ tally k m
  count_resources-tally m k h = omega (
    arith,
    row-count_resources m (replicate (types_count + 1) 0) k
        (length-replicate {A = ℕ} (types_count + 1) 0) h,
    row-replicate (types_count + 1) k,
  )
