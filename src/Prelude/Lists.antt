-- ===== src/Prelude/Lists.antt =====
-- Lists measured by native numbers, under the library's names.
use Prim.Native.Nat.{ℕ, suc, ◌+◌, ◌≤◌}
use mathlib.Core.Path.{◌≡◌, refl}
use mathlib.Core.Bool.{Bool, true, false, ◌&&◌, ◌||◌}
use mathlib.Core.List.{List, [], ◌∷◌, ◌++◌}
use native.Mathlib.Omega.{arith}
use wust_algo_tracker.Prelude.Tests.{if◌then◌else◌}

module _ {ℓ} {A : Type ℓ} where
  abbrev pub length : List A → ℕ
  length [] = 0
  length (x ∷ xs) = suc (length xs)

  pub length-append : (xs ys : List A) → length (xs ++ ys) ≡ length xs + length ys
  length-append [] ys = omega arith
  length-append (x ∷ xs) ys = omega (arith, length-append xs ys)

  unfoldable pub any : (A → Bool) → List A → Bool
  any p [] = false
  any p (x ∷ xs) = p x || any p xs

  unfoldable pub all : (A → Bool) → List A → Bool
  all p [] = true
  all p (x ∷ xs) = p x && all p xs

  unfoldable pub filter : (A → Bool) → List A → List A
  filter p [] = []
  filter p (x ∷ xs) = if p x then x ∷ filter p xs else filter p xs

  -- The elements of which a test holds, counted.
  unfoldable pub count_where : (A → Bool) → List A → ℕ
  count_where p [] = 0
  count_where p (x ∷ xs) = if p x then suc (count_where p xs) else count_where p xs

  -- No two elements are the same for the test.
  unfoldable pub IsDistinct : (A → A → Bool) → List A → Type 0
  unfolding any
  IsDistinct same [] = Unit
  IsDistinct same (x ∷ xs) = (any (same x) xs ≡ false) × IsDistinct same xs

  pub any-append : (p : A → Bool) (xs ys : List A) → any p (xs ++ ys) ≡ (any p xs || any p ys)
  unfolding any
  any-append p [] ys = refl
  any-append p (x ∷ xs) ys = ground (arith, any-append p xs ys)

  pub count_where-le-length : (p : A → Bool) (xs : List A) → count_where p xs ≤ length xs
  unfolding count_where
  count_where-le-length p [] = omega arith
  count_where-le-length p (x ∷ xs) = ground (arith, count_where-le-length p xs)

  -- A new element at the end.
  pub snoc-IsDistinct :
      (same : A → A → Bool) (xs : List A) (y : A)
      → ((a b : A) → same a b ≡ same b a)
      → IsDistinct same xs
      → any (same y) xs ≡ false
      → IsDistinct same (xs ++ y ∷ [])
  unfolding IsDistinct any
  snoc-IsDistinct same [] y c d h = (refl, tt)
  snoc-IsDistinct same (x ∷ xs) y c d h = (
    ground (arith, any-append (same x) xs (y ∷ []), c x y, d.0),
    snoc-IsDistinct same xs y c d.1 (ground (arith)),
  )
