-- ===== src/Catalog/Integrity.antt =====
-- The brands of apps/api/src/modules/catalog stay consistent under their administration.
use text.Mathlib.Text.{◌==◌ as str_eq}
use text.Mathlib.TextEquality.{eq_iff}
use savemycontrollers.Catalog.Brands.{
  Brand, BrandStore, CreateBrandRequest, UpdateBrandRequest, has_slug, has_id, patched_brand,
  is_taken, create_brand, update_brand, delete_brand, new_brand,
}
use savemycontrollers.Prelude.{
  String, Uuid, true, false, some, List, [], ◌∷◌, ◌++◌, ◌&&◌, ◌==◌, ◌≡◌, ◌≤◌, refl, arith, not, any,
  all, filter, find?, update_where, count_where, find?-none, count_where-append, count_where-none,
  any-append_left, count_where-filter-le, inl, inr, ltb, Bool-cases, Option-cases,
}

-- No two brands have one identifier or one slug, and every family has its brand.
pub record IsCatalog (s : BrandStore) : Type 0 where
  pub one_id : (i : Uuid) → count_where (has_id i) s.brands ≤ 1
  pub one_slug : (slug : String) → count_where (has_slug slug) s.brands ≤ 1
  pub owned : all (λ (f : Uuid). any (has_id f) s.brands) s.families ≡ true

owned_more :
    (families : List Uuid) (xs ys : List Brand)
    → ((f : Uuid) → any (has_id f) xs ≡ true → any (has_id f) ys ≡ true)
    → all (λ (f : Uuid). any (has_id f) xs) families ≡ true
    → all (λ (f : Uuid). any (has_id f) ys) families ≡ true
owned_more [] xs ys more h = refl
owned_more (f ∷ families) xs ys more h = ground (arith, more f, owned_more families xs ys more)

fresh_slug :
    (slug k : String) (brands : List Brand)
    → any (has_slug slug) brands ≡ false
    → str_eq slug k ≡ true
    → count_where (has_slug k) brands ≡ 0
fresh_slug slug k brands h e =
    rw ((eq_iff slug k).0 e) at (count_where-none (has_slug slug) brands h)

fresh_id :
    (i j : Uuid) (brands : List Brand)
    → any (has_id i) brands ≡ false
    → (i == j) ≡ true
    → count_where (has_id j) brands ≡ 0
fresh_id i j brands h e = ground (arith, count_where-none (has_id i) brands)

create-IsCatalog :
    (i : Uuid) (input : CreateBrandRequest) (s : BrandStore)
    → any (has_id i) s.brands ≡ false
    → IsCatalog s
    → IsCatalog (create_brand i input s).1
unfolding create_brand
create-IsCatalog i input s fresh c = elim (Option-cases (find? (has_slug input.slug) s.brands)) [
  | inr (b, e) ↦ rw e c
  | inl free ↦ rw free (record {
    one_id = λ j. ground (
      arith,
      count_where-append (has_id j) s.brands (new_brand i input ∷ []),
      fresh_id i j s.brands fresh,
      c.one_id j,
    );
    one_slug = λ k. ground (
      arith,
      count_where-append (has_slug k) s.brands (new_brand i input ∷ []),
      fresh_slug input.slug k s.brands (find?-none (has_slug input.slug) s.brands free),
      c.one_slug k,
    );
    owned =
        owned_more s.families s.brands (s.brands ++ new_brand i input ∷ [])
          (λ f. any-append_left (has_id f) s.brands (new_brand i input ∷ [])) c.owned;
  })
]

update_ids :
    (i j : Uuid) (input : UpdateBrandRequest) (brands : List Brand)
    → count_where (has_id j) (update_where (has_id i) (patched_brand input) brands)
      ≡ count_where (has_id j) brands
update_ids i j input [] = refl
update_ids i j input (b ∷ brands) = ground (arith, update_ids i j input brands)

update_any :
    (i j : Uuid) (input : UpdateBrandRequest) (brands : List Brand)
    → any (has_id j) (update_where (has_id i) (patched_brand input) brands) ≡ any (has_id j) brands
update_any i j input [] = refl
update_any i j input (b ∷ brands) = ground (arith, update_any i j input brands)

-- A slug that is not the new one is not more frequent afterwards.
other_slug :
    (i : Uuid) (k : String) (input : UpdateBrandRequest) (brands : List Brand)
    → ((slug : String) → input.slug ≡ some slug → str_eq slug k ≡ false)
    → count_where (has_slug k) (update_where (has_id i) (patched_brand input) brands)
      ≤ count_where (has_slug k) brands
other_slug i k input [] h = omega arith
other_slug i k input (b ∷ brands) h = elim (Option-cases input.slug) [
  | inl kept ↦ ground (arith, other_slug i k input brands h)
  | inr (slug, e) ↦ ground (arith, h slug e, other_slug i k input brands h)
]

-- The new slug is that of the changed brand only.
new_slug :
    (i : Uuid) (k : String) (input : UpdateBrandRequest) (brands : List Brand)
    → any (λ (b : Brand). has_slug k b && not (has_id i b)) brands ≡ false
    → count_where (has_slug k) (update_where (has_id i) (patched_brand input) brands)
      ≤ count_where (has_id i) brands
new_slug i k input [] h = omega arith
new_slug i k input (b ∷ brands) h = ground (arith, new_slug i k input brands)

patched_slugs :
    (i : Uuid) (k : String) (input : UpdateBrandRequest) (s : BrandStore)
    → is_taken i input.slug s.brands ≡ false
    → IsCatalog s
    → count_where (has_slug k) (update_where (has_id i) (patched_brand input) s.brands) ≤ 1
patched_slugs i k input s free c = elim (Option-cases input.slug) [
  | inl kept ↦
      omega (arith, other_slug i k input s.brands (λ slug e. absurd (ground arith)), c.one_slug k)
  | inr (slug, e) ↦ elim (Bool-cases (str_eq slug k)) [
    | inl same ↦ omega (
      arith,
      new_slug i k input s.brands (untaken i slug k input s.brands e same free),
      c.one_id i,
    )
    | inr other ↦ omega (arith, other_slug i k input s.brands (λ t f. ground arith), c.one_slug k)
  ]
]
  where
    untaken :
        (i : Uuid) (slug k : String) (input : UpdateBrandRequest) (brands : List Brand)
        → input.slug ≡ some slug
        → str_eq slug k ≡ true
        → is_taken i input.slug brands ≡ false
        → any (λ (b : Brand). has_slug k b && not (has_id i b)) brands ≡ false
    untaken i slug k input brands e same h = rw (e, (eq_iff slug k).0 same) at h

update-IsCatalog :
    (i : Uuid) (input : UpdateBrandRequest) (s : BrandStore)
    → IsCatalog s
    → IsCatalog (update_brand i input s).1
unfolding update_brand
update-IsCatalog i input s c = elim (Option-cases (find? (has_id i) s.brands)) [
  | inl missing ↦ rw missing c
  | inr (b, e) ↦ elim (Bool-cases (is_taken i input.slug s.brands)) [
    | inl taken ↦ rw (e, taken) c
    | inr free ↦
        rw (e, free)
          (record {
            one_id = λ j. omega (arith, update_ids i j input s.brands, c.one_id j);
            one_slug = λ k. patched_slugs i k input s free c;
            owned =
                owned_more s.families s.brands
                  (update_where (has_id i) (patched_brand input) s.brands)
                  (λ f h. ground (arith, update_any i f input s.brands)) c.owned;
          })
  ]
]

kept_any :
    (i f : Uuid) (brands : List Brand)
    → (f == i) ≡ false
    → any (has_id f) brands ≡ true
    → any (has_id f) (filter (λ (b : Brand). not (has_id i b)) brands) ≡ true
kept_any i f [] h e = e
kept_any i f (b ∷ brands) h e = ground (arith, kept_any i f brands h)

owned_without :
    (i : Uuid) (families : List Uuid) (brands : List Brand)
    → count_where (λ (brand_id : Uuid). brand_id == i) families ≡ 0
    → all (λ (f : Uuid). any (has_id f) brands) families ≡ true
    → all (λ (f : Uuid). any (has_id f) (filter (λ (b : Brand). not (has_id i b)) brands)) families
      ≡ true
owned_without i [] brands h e = refl
owned_without i (f ∷ families) brands h e =
    ground (arith, kept_any i f brands, owned_without i families brands)

delete-IsCatalog : (i : Uuid) (s : BrandStore) → IsCatalog s → IsCatalog (delete_brand i s).1
unfolding delete_brand
delete-IsCatalog i s c = elim (Option-cases (find? (has_id i) s.brands)) [
  | inl missing ↦ rw missing c
  | inr (b, e) ↦
      elim (Bool-cases (ltb 0 (count_where (λ (brand_id : Uuid). brand_id == i) s.families))) [
        | inl used ↦ rw (e, used) c
        | inr unused ↦
            rw (e, unused)
              (record {
                one_id = λ j. omega (
                  arith,
                  count_where-filter-le (has_id j) (λ (b : Brand). not (has_id i b)) s.brands,
                  c.one_id j,
                );
                one_slug = λ k. omega (
                  arith,
                  count_where-filter-le (has_slug k) (λ (b : Brand). not (has_id i b)) s.brands,
                  c.one_slug k,
                );
                owned = owned_without i s.families s.brands (ground arith) c.owned;
              })
      ]
]

-- The requests of the administration; a creation comes with the identifier that is drawn for it.
pub data BrandCall : Type 0 where
  create : Uuid → CreateBrandRequest → BrandCall
  update : Uuid → UpdateBrandRequest → BrandCall
  delete : Uuid → BrandCall

abbrev pub call : BrandCall → BrandStore → BrandStore
call (create i input) s = (create_brand i input s).1
call (update i input) s = (update_brand i input s).1
call (delete i) s = (delete_brand i s).1

abbrev pub calls : List BrandCall → BrandStore → BrandStore
calls [] s = s
calls (c ∷ cs) s = calls cs (call c s)

abbrev IsFreshCall : BrandCall → BrandStore → Type 0
IsFreshCall (create i input) s = any (has_id i) s.brands ≡ false
IsFreshCall (update i input) s = Unit
IsFreshCall (delete i) s = Unit

-- Every identifier that is drawn is new where it is used.
abbrev pub IsFresh : List BrandCall → BrandStore → Type 0
IsFresh [] s = Unit
IsFresh (c ∷ cs) s = IsFreshCall c s × IsFresh cs (call c s)

call-IsCatalog :
    (c : BrandCall) (s : BrandStore) → IsFreshCall c s → IsCatalog s → IsCatalog (call c s)
call-IsCatalog (create i input) s fresh t = create-IsCatalog i input s fresh t
call-IsCatalog (update i input) s fresh t = update-IsCatalog i input s t
call-IsCatalog (delete i) s fresh t = delete-IsCatalog i s t

-- After any requests of the administration, made or refused, no two brands have one identifier or
-- one slug, and every product family has its brand, where it was so before and each identifier that
-- is drawn is new.
pub calls-IsCatalog :
    (cs : List BrandCall) (s : BrandStore) → IsFresh cs s → IsCatalog s → IsCatalog (calls cs s)
calls-IsCatalog [] s fresh t = t
calls-IsCatalog (c ∷ cs) s fresh t =
    calls-IsCatalog cs (call c s) fresh.1 (call-IsCatalog c s fresh.0 t)
