-- ===== src/Base/Sort.antt =====
-- Stable insertion sort by a Boolean order: what `sort`, `sort_by_key` and, on keys that are
-- distinct, `sort_unstable_by_key` of the source return.
use mathlib.Core.Bool.{Bool}
use mathlib.Core.List.{List, [], ◌∷◌}
use mathlib.Core.Logic.{inl, inr}
use mathlib.Core.Path.{◌≡◌, refl}
use native.Mathlib.Omega.{arith}
use Prim.Native.Nat.{◌+◌}
use klassenzeit.Base.Tests.{if◌then◌else◌, Bool-cases}
use klassenzeit.Base.Lists.{length, filter}
use klassenzeit.Base.Membership.{In, here, there, In-cons}

module _ {ℓ} {A : Type ℓ} (le : A → A → Bool) where
  unfoldable pub insert_sorted : A → List A → List A
  insert_sorted a [] = a ∷ []
  insert_sorted a (x ∷ xs) = if le a x then a ∷ x ∷ xs else x ∷ insert_sorted a xs

  unfoldable pub sort_by : List A → List A
  unfolding insert_sorted
  sort_by [] = []
  sort_by (x ∷ xs) = insert_sorted x (sort_by xs)

  In-insert_sorted : (a : A) (xs : List A) {b : A} → In b (insert_sorted a xs) → In b (a ∷ xs)
  unfolding insert_sorted
  In-insert_sorted a [] i = i
  In-insert_sorted a (x ∷ xs) i = elim (Bool-cases (le a x)) [
    | inl first ↦ rw first at i
    | inr later ↦ elim (In-cons (rw later at i)) [
      | inl e ↦ rw e (there here)
      | inr j ↦ elim (In-cons (In-insert_sorted a xs j)) [
        | inl e ↦ rw e here
        | inr k ↦ there (there k)
      ]
    ]
  ]

  -- Sorting makes up no element.
  pub In-sort_by : (xs : List A) {b : A} → In b (sort_by xs) → In b xs
  unfolding sort_by
  In-sort_by [] i = i
  In-sort_by (x ∷ xs) i = elim (In-cons (In-insert_sorted x (sort_by xs) i)) [
    | inl e ↦ rw e here
    | inr j ↦ there (In-sort_by xs j)
  ]

  length-insert_sorted : (a : A) (xs : List A) → length (insert_sorted a xs) ≡ length xs + 1
  unfolding insert_sorted
  length-insert_sorted a [] = omega arith
  length-insert_sorted a (x ∷ xs) = ground (arith, length-insert_sorted a xs)

  pub length-sort_by : (xs : List A) → length (sort_by xs) ≡ length xs
  unfolding sort_by
  length-sort_by [] = omega arith
  length-sort_by (x ∷ xs) = omega (arith, length-sort_by xs, length-insert_sorted x (sort_by xs))

  In-insert_sorted_back : (a : A) (xs : List A) {b : A} → In b (a ∷ xs) → In b (insert_sorted a xs)
  unfolding insert_sorted
  In-insert_sorted_back a [] i = i
  In-insert_sorted_back a (x ∷ xs) i = elim (Bool-cases (le a x)) [
    | inl first ↦ rw first i
    | inr later ↦ rw later (elim (In-cons i) [
      | inl e ↦ there (In-insert_sorted_back a xs (rw e here))
      | inr j ↦ elim (In-cons j) [
        | inl e ↦ rw e here
        | inr k ↦ there (In-insert_sorted_back a xs (there k))
      ]
    ])
  ]

  -- Sorting drops no element.
  pub In-sort_by_back : (xs : List A) {b : A} → In b xs → In b (sort_by xs)
  unfolding sort_by
  In-sort_by_back [] i = i
  In-sort_by_back (x ∷ xs) i = elim (In-cons i) [
    | inl e ↦ In-insert_sorted_back x (sort_by xs) (rw e here)
    | inr j ↦ In-insert_sorted_back x (sort_by xs) (there (In-sort_by_back xs j))
  ]

  length-filter_inserted :
      (p : A → Bool) (a : A) (xs : List A)
      → length (filter p (insert_sorted a xs)) ≡ length (filter p (a ∷ xs))
  unfolding insert_sorted
  length-filter_inserted p a [] = refl
  length-filter_inserted p a (x ∷ xs) = ground (arith, length-filter_inserted p a xs)

  -- Every test picks as many elements as before.
  pub length-filter-sort_by :
      (p : A → Bool) (xs : List A) → length (filter p (sort_by xs)) ≡ length (filter p xs)
  unfolding sort_by
  length-filter-sort_by p [] = refl
  length-filter-sort_by p (x ∷ xs) =
      ground (arith, length-filter-sort_by p xs, length-filter_inserted p x (sort_by xs))
