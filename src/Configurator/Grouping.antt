-- ===== src/Configurator/Grouping.antt =====
-- `groupBy` of apps/api/src/modules/configurator/services/configurator.service.ts: a map from keys to
-- buckets, and what the bucket of a key holds.
use mathlib.Core.List.{append_assoc, append-nil}
use savemycontrollers.Prelude.{
  Uuid, Option, none, some, List, [], ◌∷◌, ◌++◌, ◌≡◌, refl, sym, ◌∙◌, arith, ◌==◌, filter,
  if◌then◌else◌,
}

-- `groupBy`: a map from each key to its items, in the order of the items.
module _ {A : Type 0} where
  abbrev put_in_bucket : Uuid → A → List (Uuid × List A) → List (Uuid × List A)
  put_in_bucket key item [] = (key, item ∷ []) ∷ []
  put_in_bucket key item ((k, bucket) ∷ buckets) =
      let rest = put_in_bucket key item buckets in
      if k == key then (k, bucket ++ item ∷ []) ∷ buckets else (k, bucket) ∷ rest

  group_from : (A → Uuid) → List A → List (Uuid × List A) → List (Uuid × List A)
  group_from key_fn [] buckets = buckets
  group_from key_fn (x ∷ xs) buckets = group_from key_fn xs (put_in_bucket (key_fn x) x buckets)

  unfoldable pub group_by : (A → Uuid) → List A → List (Uuid × List A)
  unfolding group_from
  group_by key_fn items = group_from key_fn items []

  -- `map.get(key)`
  abbrev pub bucket_of : Uuid → List (Uuid × List A) → Option (List A)
  bucket_of key [] = none
  bucket_of key ((k, bucket) ∷ buckets) = if k == key then some bucket else bucket_of key buckets

  -- A list of items, or nothing where there is none.
  abbrev pub nonempty : List A → Option (List A)
  nonempty [] = none
  nonempty (x ∷ xs) = some (x ∷ xs)

  -- A bucket with more items behind it; a missing bucket comes to be with the first of them.
  extended : Option (List A) → List A → Option (List A)
  extended none [] = none
  extended none (x ∷ xs) = some (x ∷ xs)
  extended (some bucket) xs = some (bucket ++ xs)

  bucket_of-put :
      (i key : Uuid) (item : A) (buckets : List (Uuid × List A))
      → bucket_of i (put_in_bucket key item buckets)
        ≡ (if key == i then extended (bucket_of key buckets) (item ∷ []) else bucket_of i buckets)
  unfolding extended
  bucket_of-put i key item [] = ground arith
  bucket_of-put i key item ((k, bucket) ∷ buckets) =
      ground (arith, bucket_of-put i key item buckets)

  extended-extended :
      (o : Option (List A)) (x : A) (xs : List A)
      → extended (extended o (x ∷ [])) xs ≡ extended o (x ∷ xs)
  unfolding extended
  extended-extended none x xs = refl
  extended-extended (some bucket) x xs = rw (append_assoc bucket (x ∷ []) xs)

  extended-nil : (o : Option (List A)) → extended o [] ≡ o
  unfolding extended
  extended-nil none = refl
  extended-nil (some bucket) = rw append-nil

  bucket_of-group_from :
      (key_fn : A → Uuid) (i : Uuid) (xs : List A) (buckets : List (Uuid × List A))
      → bucket_of i (group_from key_fn xs buckets)
        ≡ extended (bucket_of i buckets) (filter (λ x. key_fn x == i) xs)
  unfolding group_from
  bucket_of-group_from key_fn i [] buckets = sym (extended-nil (bucket_of i buckets))
  bucket_of-group_from key_fn i (x ∷ xs) buckets = ground (
    arith,
    bucket_of-group_from key_fn i xs (put_in_bucket (key_fn x) x buckets),
    bucket_of-put i (key_fn x) x buckets,
    extended-extended (bucket_of i buckets) x (filter (λ (y : A). key_fn y == i) xs),
  )

  -- Where the map has a bucket for a key, it holds the items with that key, in their order; a key
  -- without items has none.
  pub bucket_of-group_by :
      (key_fn : A → Uuid) (i : Uuid) (xs : List A)
      → bucket_of i (group_by key_fn xs) ≡ nonempty (filter (λ x. key_fn x == i) xs)
  unfolding group_by extended
  bucket_of-group_by key_fn i xs = bucket_of-group_from key_fn i xs [] ∙ none_extended _
    where
      none_extended : (ys : List A) → extended none ys ≡ nonempty ys
      none_extended [] = refl
      none_extended (y ∷ ys) = refl
