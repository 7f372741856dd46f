-- ===== src/Prelude/Sets.antt =====
-- Laws of `distinct`, `contains` and of the array methods under a filter.
use Prim.Native.Nat.{ℕ, suc, ◌≤◌}
use mathlib.Core.Path.{◌≡◌, refl}
use mathlib.Core.Logic.{inl, inr}
use mathlib.Core.Bool.{Bool, true, false, not, ◌&&◌, ◌||◌}
use mathlib.Core.List.{List, [], ◌∷◌}
use native.Mathlib.Omega.{arith}
use savemycontrollers.Prelude.Tests.{Uuid, ◌==◌, Bool-cases}
use savemycontrollers.Prelude.Lists.{
  length, filter, find?, any, all, contains, distinct, length-filter-le,
}

-- No identifier stands twice in the list.
abbrev pub is_distinct : List Uuid → Bool
is_distinct [] = true
is_distinct (k ∷ ks) = not (contains k ks) && is_distinct ks

module _ {ℓ} {A : Type ℓ} where
  pub all-filter :
      (p q : A → Bool) (xs : List A) → all p (filter q xs) ≡ all (λ x. not (q x) || p x) xs
  all-filter p q [] = refl
  all-filter p q (x ∷ xs) = ground (arith, all-filter p q xs)

  pub any-filter : (p q : A → Bool) (xs : List A) → any p (filter q xs) ≡ any (λ x. q x && p x) xs
  any-filter p q [] = refl
  any-filter p q (x ∷ xs) = ground (arith, any-filter p q xs)

  -- A filter that keeps all that `find?` looks for changes nothing for it.
  pub find?-filter :
      (p q : A → Bool) (xs : List A)
      → all (λ x. not (p x) || q x) xs ≡ true
      → find? p (filter q xs) ≡ find? p xs
  find?-filter p q [] h = refl
  find?-filter p q (x ∷ xs) h = ground (arith, find?-filter p q xs)

all-filter_other :
    (p : Uuid → Bool) (k : Uuid) (js : List Uuid)
    → p k ≡ true
    → all p (filter (λ j. not (j == k)) js) ≡ all p js
all-filter_other p k [] h = refl
all-filter_other p k (j ∷ js) h = ground (arith, all-filter_other p k js)

pub all-distinct : (p : Uuid → Bool) (ks : List Uuid) → all p (distinct ks) ≡ all p ks
all-distinct p [] = refl
all-distinct p (k ∷ ks) = ground (arith, all-filter_other p k (distinct ks), all-distinct p ks)

contains-filter_other :
    (i k : Uuid) (js : List Uuid)
    → contains i (filter (λ j. not (j == k)) js) ≡ (contains i js && not (i == k))
contains-filter_other i k [] = refl
contains-filter_other i k (j ∷ js) = ground (arith, contains-filter_other i k js)

pub contains-distinct : (i : Uuid) (ks : List Uuid) → contains i (distinct ks) ≡ contains i ks
contains-distinct i [] = refl
contains-distinct i (k ∷ ks) =
    ground (arith, contains-filter_other i k (distinct ks), contains-distinct i ks)

filter_other_id :
    (k : Uuid) (js : List Uuid) → contains k js ≡ false → filter (λ j. not (j == k)) js ≡ js
filter_other_id k [] h = refl
filter_other_id k (j ∷ js) h = ground (arith, filter_other_id k js)

length-filter_other-lt :
    (k : Uuid) (js : List Uuid)
    → contains k js ≡ true
    → suc (length (filter (λ j. not (j == k)) js)) ≤ length js
length-filter_other-lt k [] h = cc
length-filter_other-lt k (j ∷ js) h =
    ground (arith, length-filter_other-lt k js, length-filter-le (λ (i : ℕ). not (i == k)) js)

pub length-distinct-le : (ks : List Uuid) → length (distinct ks) ≤ length ks
length-distinct-le [] = omega arith
length-distinct-le (k ∷ ks) =
    omega (arith, length-filter-le (λ (j : ℕ). not (j == k)) (distinct ks), length-distinct-le ks)

-- The set is as large as the list exactly where no identifier stands twice.
pub length-distinct-is_distinct :
    (ks : List Uuid) → (length (distinct ks) == length ks) ≡ is_distinct ks
length-distinct-is_distinct [] = refl
length-distinct-is_distinct (k ∷ ks) = elim (Bool-cases (contains k ks)) [
  | inl twice ↦
      ground (
        arith,
        length-filter_other-lt k (distinct ks),
        contains-distinct k ks,
        length-distinct-le ks,
      )
  | inr once ↦ ground (
    arith,
    filter_other_id k (distinct ks),
    contains-distinct k ks,
    length-distinct-is_distinct ks,
  )
]

-- Two tests that agree on the elements of a list agree on the whole of it.
pub all_cong :
    (p q : Uuid → Bool) (ks : List Uuid)
    → ((i : Uuid) → contains i ks ≡ true → p i ≡ q i)
    → all p ks ≡ all q ks
all_cong p q [] h = refl
all_cong p q (k ∷ ks) h = ground (arith, h k, all_cong p q ks (λ i m. h i (ground arith)))
