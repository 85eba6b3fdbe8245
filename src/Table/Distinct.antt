-- ===== src/Table/Distinct.antt =====
-- Tables whose primary keys are distinct.
use wust_algo_tracker.Prelude.{ℕ, ◌≡◌, refl, Bool, none, some, List, [], ◌∷◌, ◌++◌, arith}
use wust_algo_tracker.Table.{find, get, update_where, delete_where}
use wust_algo_tracker.Table.Laws.{get-insert, get-update}

abbrev pub Distinct : {R : Type 0} → (R → ℕ) → List R → Type 0
Distinct key [] = Unit
Distinct key (r ∷ rows) = (get key (key r) rows ≡ none) × Distinct key rows

module _ {R : Type 0} (key : R → ℕ) where
  -- A row that `First` finds is the row with its key.
  pub get-find :
      (p : R → Bool) (r : R) (rows : List R)
      → Distinct key rows
      → find p rows ≡ some r
      → get key (key r) rows ≡ some r
  unfolding find get
  get-find p r [] d h = absurd (cc)
  get-find p r (s ∷ rows) d h = ground (arith, get-find p r rows d.1)

  pub update-Distinct :
      (p : R → Bool) (f : R → R) (rows : List R)
      → ((r : R) → key (f r) ≡ key r)
      → Distinct key rows
      → Distinct key (update_where p f rows)
  unfolding update_where
  update-Distinct p f [] h d = tt
  update-Distinct p f (r ∷ rows) h d = (
    ground (arith, h r, get-update key (key r) p f rows h, get-update key (key (f r)) p f rows h),
    update-Distinct p f rows h d.1,
  )

  get-delete_none :
      (k : ℕ) (p : R → Bool) (rows : List R)
      → get key k rows ≡ none
      → get key k (delete_where p rows) ≡ none
  unfolding delete_where get
  get-delete_none k p [] h = refl
  get-delete_none k p (r ∷ rows) h = ground (arith, get-delete_none k p rows)

  pub delete-Distinct :
      (p : R → Bool) (rows : List R) → Distinct key rows → Distinct key (delete_where p rows)
  unfolding delete_where
  delete-Distinct p [] d = tt
  delete-Distinct p (r ∷ rows) d =
      ground (arith, get-delete_none (key r) p rows, delete-Distinct p rows d.1)

  pub insert-Distinct :
      (r : R) (rows : List R)
      → Distinct key rows
      → get key (key r) rows ≡ none
      → Distinct key (rows ++ r ∷ [])
  unfolding get
  insert-Distinct r [] d h = (refl, tt)
  insert-Distinct r (s ∷ rows) d h =
      ground (arith, insert-Distinct r rows d.1, get-insert key (key s) r rows)
