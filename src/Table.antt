-- ===== src/Table.antt =====
-- A database table: its live rows, in the order of their primary keys. A soft-deleted row is one
-- that no modelled query sees again, so it leaves the list.
pub mod Laws
pub mod Distinct
use wust_algo_tracker.Prelude.{ℕ, suc, Bool, Option, none, some, List, [], ◌∷◌, ◌==◌, if◌then◌else◌}

module _ {R : Type 0} where
  -- `Where(p).First`: the first row, in key order, that meets a condition.
  unfoldable pub find : (R → Bool) → List R → Option R
  find p [] = none
  find p (r ∷ rs) = if p r then some r else find p rs

  -- `First(&row, k)`: the row with a primary key.
  unfoldable pub get : (R → ℕ) → ℕ → List R → Option R
  get key k [] = none
  get key k (r ∷ rs) = if key r == k then some r else get key k rs

  -- `Where(p).Updates(f)`.
  unfoldable pub update_where : (R → Bool) → (R → R) → List R → List R
  update_where p f [] = []
  update_where p f (r ∷ rs) = (if p r then f r else r) ∷ update_where p f rs

  -- `Where(p).Delete`.
  unfoldable pub delete_where : (R → Bool) → List R → List R
  delete_where p [] = []
  delete_where p (r ∷ rs) = let rest = delete_where p rs in if p r then rest else r ∷ rest

  -- `Where(p).Find`.
  unfoldable pub select : (R → Bool) → List R → List R
  select p [] = []
  select p (r ∷ rs) = let rest = select p rs in if p r then r ∷ rest else rest

  -- `Where(p).Count`.
  unfoldable pub count_where : (R → Bool) → List R → ℕ
  count_where p [] = 0
  count_where p (r ∷ rs) = let n = count_where p rs in if p r then suc n else n
