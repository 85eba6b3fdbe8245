-- ===== src/Prelude/Sorting.antt =====
-- `sort.SliceStable`, as an insertion sort.
use mathlib.Core.Path.{◌≡◌, refl, ap, ◌∙◌}
use mathlib.Core.Logic.{inl, inr}
use mathlib.Core.Bool.{Bool, true, false, not, ◌&&◌, ◌||◌}
use mathlib.Core.List.{List, [], ◌∷◌}
use native.Mathlib.Omega.{arith}
use wust_algo_tracker.Prelude.Tests.{if◌then◌else◌, Bool-cases}
use wust_algo_tracker.Prelude.Lists.{any, all, filter, count_where, IsDistinct}

module _ {ℓ} {A : Type ℓ} (less : A → A → Bool) where
  -- An element goes before the first that is not less: elements that stand before it stay so.
  unfoldable pub insert : A → List A → List A
  insert x [] = x ∷ []
  insert x (y ∷ ys) = if less y x then y ∷ insert x ys else x ∷ y ∷ ys

  unfoldable pub slice_stable : List A → List A
  unfolding insert
  slice_stable [] = []
  slice_stable (x ∷ xs) = insert x (slice_stable xs)

  -- No element is less than one that stands before it.
  unfoldable pub IsSorted : List A → Type 0
  unfolding all
  IsSorted [] = Unit
  IsSorted (x ∷ xs) = (all (λ y. not (less y x)) xs ≡ true) × IsSorted xs

  any-insert : (p : A → Bool) (x : A) (xs : List A) → any p (insert x xs) ≡ (p x || any p xs)
  unfolding any insert
  any-insert p x [] = refl
  any-insert p x (y ∷ ys) = ground (arith, any-insert p x ys)

  pub any-slice_stable : (p : A → Bool) (xs : List A) → any p (slice_stable xs) ≡ any p xs
  unfolding any slice_stable
  any-slice_stable p [] = refl
  any-slice_stable p (x ∷ xs) =
      ground (arith, any-insert p x (slice_stable xs), any-slice_stable p xs)

  pub count-insert :
      (p : A → Bool) (x : A) (xs : List A) → count_where p (insert x xs) ≡ count_where p (x ∷ xs)
  unfolding count_where insert
  count-insert p x [] = refl
  count-insert p x (y ∷ ys) = ground (arith, count-insert p x ys)

  -- The sorted list has the elements of the list.
  pub count-slice_stable :
      (p : A → Bool) (xs : List A) → count_where p (slice_stable xs) ≡ count_where p xs
  unfolding count_where slice_stable
  count-slice_stable p [] = refl
  count-slice_stable p (x ∷ xs) =
      ground (arith, count-insert p x (slice_stable xs), count-slice_stable p xs)

  insert-IsDistinct :
      (same : A → A → Bool) (x : A) (xs : List A)
      → ((a b : A) → same a b ≡ same b a)
      → any (same x) xs ≡ false
      → IsDistinct same xs
      → IsDistinct same (insert x xs)
  unfolding any insert IsDistinct
  insert-IsDistinct same x [] c h d = (refl, tt)
  insert-IsDistinct same x (y ∷ ys) c h d = elim (Bool-cases (less y x)) [
    | inl e ↦ rw e (
      ground (arith, any-insert (same y) x ys, c x y, d.0),
      insert-IsDistinct same x ys c (ground (arith)) d.1,
    )
    | inr e ↦ rw e (h, d)
  ]

  pub slice_stable-IsDistinct :
      (same : A → A → Bool) (xs : List A)
      → ((a b : A) → same a b ≡ same b a)
      → IsDistinct same xs
      → IsDistinct same (slice_stable xs)
  unfolding any slice_stable IsDistinct
  slice_stable-IsDistinct same [] c d = tt
  slice_stable-IsDistinct same (x ∷ xs) c d =
      insert-IsDistinct same x (slice_stable xs) c (any-slice_stable (same x) xs ∙ d.0)
        (slice_stable-IsDistinct same xs c d.1)

  pub all-insert : (p : A → Bool) (x : A) (xs : List A) → all p (insert x xs) ≡ (p x && all p xs)
  unfolding all insert
  all-insert p x [] = refl
  all-insert p x (y ∷ ys) = ground (arith, all-insert p x ys)

  pub all-slice_stable : (p : A → Bool) (xs : List A) → all p (slice_stable xs) ≡ all p xs
  unfolding all slice_stable
  all-slice_stable p [] = refl
  all-slice_stable p (x ∷ xs) =
      ground (arith, all-insert p x (slice_stable xs), all-slice_stable p xs)

  -- For an order: two that are not less make a third, and of two one is not less.
  module _ (trans : (x y z : A) → less y x ≡ false → less z y ≡ false → less z x ≡ false)
      (asym : (x y : A) → less y x ≡ true → less x y ≡ false) where
    all_trans :
        (x y : A) (zs : List A)
        → less y x ≡ false
        → all (λ z. not (less z y)) zs ≡ true
        → all (λ z. not (less z x)) zs ≡ true
    unfolding all
    all_trans x y [] h k = refl
    all_trans x y (z ∷ zs) h k = ground (arith, trans x y z h, all_trans x y zs h)

    pub insert-IsSorted : (x : A) (xs : List A) → IsSorted xs → IsSorted (insert x xs)
    unfolding insert IsSorted all
    insert-IsSorted x [] s = (refl, tt)
    insert-IsSorted x (y ∷ ys) s = elim (Bool-cases (less y x)) [
      | inl e ↦ rw e (
        ground (arith, all-insert (λ z. not (less z y)) x ys, asym x y e, s.0),
        insert-IsSorted x ys s.1,
      )
      | inr e ↦ rw e (ground (arith, e, all_trans x y ys e s.0), s)
    ]

    pub slice_stable-IsSorted : (xs : List A) → IsSorted (slice_stable xs)
    unfolding slice_stable IsSorted
    slice_stable-IsSorted [] = tt
    slice_stable-IsSorted (x ∷ xs) = insert-IsSorted x (slice_stable xs) (slice_stable-IsSorted xs)

  filter-insert :
      (p : A → Bool) (x : A) (xs : List A)
      → ((y : A) → p x ≡ true → p y ≡ true → less y x ≡ false)
      → filter p (insert x xs) ≡ filter p (x ∷ xs)
  unfolding filter insert
  filter-insert p x [] h = refl
  filter-insert p x (y ∷ ys) h = ground (arith, h y, filter-insert p x ys h)

  -- Elements of which none is less than another keep their order.
  pub filter-slice_stable :
      (p : A → Bool) (xs : List A)
      → ((x y : A) → p x ≡ true → p y ≡ true → less y x ≡ false)
      → filter p (slice_stable xs) ≡ filter p xs
  unfolding filter slice_stable
  filter-slice_stable p [] h = refl
  filter-slice_stable p (x ∷ xs) h =
      filter-insert p x (slice_stable xs) (h x) ∙ ground (arith, filter-slice_stable p xs h)

  insert-first : (x : A) (xs : List A) → all (λ y. not (less y x)) xs ≡ true → insert x xs ≡ x ∷ xs
  unfolding insert all
  insert-first x [] h = refl
  insert-first x (y ∷ ys) h = ground (arith)

  -- A sorted list stays as it is.
  pub slice_stable-sorted : (xs : List A) → IsSorted xs → slice_stable xs ≡ xs
  unfolding slice_stable IsSorted
  slice_stable-sorted [] s = refl
  slice_stable-sorted (x ∷ xs) s =
      ap (insert x) (slice_stable-sorted xs s.1) ∙ insert-first x xs s.0
