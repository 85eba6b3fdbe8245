-- ===== src/Tests/Achievements.antt =====
-- The median of three numbers, with the numbers of ℕ and NaN in the place of those of float64.
use wust_algo_tracker.Prelude.{
  ℕ, ◌+◌, ◌*◌, ◌/◌, ◌≤◌, ◌≡◌, refl, Bool, false, true, List, [], ◌∷◌, length, all, count_where, ltb,
  arith, Option, none, some,
}
use wust_algo_tracker.Statistics.Achievements.{Float64, greater, achievement_median}
use wust_algo_tracker.Statistics.Achievements.Laws.{achievement_median-middle}

-- `none` is NaN.
abbrev Number : Type 0
Number = Option ℕ

abbrev is_number : Number → Bool
is_number none = false
is_number (some n) = true

abbrev below : Number → Number → Bool
below (some x) (some y) = ltb x y
below none y = false
below (some x) none = false

abbrev lift : (ℕ → ℕ → ℕ) → Number → Number → Number
lift op (some x) (some y) = some (op x y)
lift op none y = none
lift op (some x) none = none

abbrev whole : Float64 Number
whole = record {
  less_than = below;
  add = lift (λ x y. x + y);
  mul = lift (λ x y. x * y);
  div = lift (λ x y. x / y);
  of_nat = λ n. some n;
}

abbrev counts : List Number
counts = some 9 ∷ some 2 ∷ some 5 ∷ []

greater_trans :
    (x y z : Number)
    → is_number y ≡ true
    → greater whole y x ≡ false
    → greater whole z y ≡ false
    → greater whole z x ≡ false
greater_trans x none z n p q = absurd (ground arith)
greater_trans none (some y) z n p q = refl
greater_trans (some x) (some y) none n p q = refl
greater_trans (some x) (some y) (some z) n p q = ground (arith, p, q)

greater_asym : (x y : Number) → greater whole y x ≡ true → greater whole x y ≡ false
greater_asym none y p = ground (arith, p)
greater_asym (some x) none p = refl
greater_asym (some x) (some y) p = ground (arith, p)

achievement_median-middle_example :
    (count_where (λ y. below (achievement_median whole counts) y) counts ≤ length counts / 2)
    × (count_where (λ y. below y (achievement_median whole counts)) counts ≤ length counts / 2)
unfolding all
achievement_median-middle_example =
    achievement_median-middle whole is_number greater_trans greater_asym counts refl refl
