-- ===== src/Statistics/Achievements.antt =====
-- achievementPercentile and achievementMedian (app/core_data/internal/service/statistic_ops.go). The
-- numbers of float64 and its operations are parameters.
pub mod Laws
use wust_algo_tracker.Prelude.{
  ℕ, zero, suc, ◌-◌, ◌/◌, ◌%◌, Bool, ◌==◌, Option, none, some, List, [], ◌∷◌, length, count_where,
  if◌then◌else◌,
}
use wust_algo_tracker.Prelude.Sorting.{insert}

pub record Float64 (F : Type 0) : Type 0 where
  pub less_than : F → F → Bool
  pub add : F → F → F
  pub mul : F → F → F
  pub div : F → F → F
  pub of_nat : ℕ → F

unfoldable pub item_at : {F : Type 0} → ℕ → List F → Option F
item_at n [] = none
item_at zero (x ∷ items) = some x
item_at (suc n) (x ∷ items) = item_at n items

module _ {F : Type 0} (f : Float64 F) where
  abbrev pub greater : F → F → Bool
  greater x y = f.less_than y x

  -- achievementPercentile
  unfoldable pub achievement_percentile : List F → F → F
  unfolding count_where
  achievement_percentile values value =
      if length values == 0
      then f.of_nat 0
      else f.mul
          (f.div (f.of_nat (count_where (λ item. f.less_than item value) values))
            (f.of_nat (length values)))
          (f.of_nat 100)

  -- The outer loop: the items before i, the last of them first, and those from i on. The inner
  -- loop moves `items[j]` up while it is greater than the current item, which is put after the rest.
  unfoldable pub sort_items : List F → List F → List F
  unfolding insert
  sort_items before [] = before
  sort_items before (current ∷ rest) = sort_items (insert greater current before) rest

  -- `items[k]` of the n sorted items, which stand with the last first.
  unfoldable pub sorted_item : ℕ → List F → Option F
  unfolding sort_items item_at
  sorted_item k values = item_at (length values - 1 - k) (sort_items [] values)

  abbrev half_sum : Option F → Option F → F
  half_sum (some x) (some y) = f.div (f.add x y) (f.of_nat 2)
  half_sum none o = f.of_nat 0
  half_sum (some x) none = f.of_nat 0

  abbrev pub or_zero : Option F → F
  or_zero none = f.of_nat 0
  or_zero (some x) = x

  -- achievementMedian
  unfoldable pub achievement_median : List F → F
  unfolding sorted_item
  achievement_median values =
      let middle = length values / 2 in
      if length values == 0
      then f.of_nat 0
      else if length values % 2 == 1
      then or_zero (sorted_item middle values)
      else half_sum (sorted_item (middle - 1) values) (sorted_item middle values)
