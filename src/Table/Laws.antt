-- ===== src/Table/Laws.antt =====
-- Lookups after a write to a table.
use mathlib.Core.Option
use wust_algo_tracker.Prelude.{
  ℕ, ◌≡◌, refl, Bool, true, false, Option, none, some, List, [], ◌∷◌, ◌++◌, arith, ◌==◌,
  if◌then◌else◌,
}
use wust_algo_tracker.Table.{find, get, update_where, delete_where}

-- What a lookup finds once a row of this key has been put at the end.
abbrev pub or_row : {R : Type 0} → (R → ℕ) → ℕ → R → Option R → Option R
or_row key k r none = if key r == k then some r else none
or_row key k r (some s) = some s

-- A row after an update.
abbrev pub updated : {R : Type 0} → (R → Bool) → (R → R) → R → R
updated p f r = if p r then f r else r

module _ {R : Type 0} (key : R → ℕ) where
  pub get-insert :
      (k : ℕ) (r : R) (rows : List R) → get key k (rows ++ r ∷ []) ≡ or_row key k r (get key k rows)
  unfolding get
  get-insert k r [] = refl
  get-insert k r (s ∷ rows) = ground (arith, get-insert k r rows)

  pub get-key : (k : ℕ) (r : R) (rows : List R) → get key k rows ≡ some r → key r ≡ k
  unfolding get
  get-key k r [] h = absurd (cc)
  get-key k r (s ∷ rows) h = ground (arith, get-key k r rows)

  -- Rows are deleted by their key.
  pub get-delete :
      (k d : ℕ) (rows : List R)
      → get key k (delete_where (λ r. key r == d) rows) ≡ (if k == d then none else get key k rows)
  unfolding get delete_where
  get-delete k d [] = ground arith
  get-delete k d (s ∷ rows) = ground (arith, get-delete k d rows)

  -- Deleting by a key that is not there changes nothing.
  pub delete_absent :
      (k : ℕ) (rows : List R) → get key k rows ≡ none → delete_where (λ r. key r == k) rows ≡ rows
  unfolding get delete_where
  delete_absent k [] h = refl
  delete_absent k (s ∷ rows) h = ground (arith, delete_absent k rows)

  -- An update that keeps the keys changes the row that a lookup finds.
  pub get-update :
      (k : ℕ) (p : R → Bool) (f : R → R) (rows : List R)
      → ((r : R) → key (f r) ≡ key r)
      → get key k (update_where p f rows)
        ≡ Option.map (λ r. if p r then f r else r) (get key k rows)
  unfolding get update_where
  get-update k p f [] h = ground arith
  get-update k p f (s ∷ rows) h = ground (arith, get-update k p f rows h, h s)

module _ {R : Type 0} where
  -- A row that `First` finds meets the condition.
  pub find_sound : (p : R → Bool) (r : R) (rows : List R) → find p rows ≡ some r → p r ≡ true
  unfolding find
  find_sound p r [] h = absurd (cc)
  find_sound p r (s ∷ rows) h = ground (arith, find_sound p r rows)

-- Where `First` finds nothing, no row that a lookup finds meets the condition.
pub find-none :
    {R : Type 0} (key : R → ℕ) (p : R → Bool) (k : ℕ) (r : R) (rows : List R)
    → find p rows ≡ none
    → get key k rows ≡ some r
    → p r ≡ false
unfolding find get
find-none key p k r [] n h = absurd (cc)
find-none key p k r (s ∷ rows) n h = ground (arith, find-none key p k r rows)

module _ {R : Type 0} where
  -- What no row meets after two updates is not found.
  pub find-update_none :
      (p q1 q2 : R → Bool) (f1 f2 : R → R) (rows : List R)
      → ((r : R) → p (updated q2 f2 (updated q1 f1 r)) ≡ false)
      → find p (update_where q2 f2 (update_where q1 f1 rows)) ≡ none
  unfolding find update_where
  find-update_none p q1 q2 f1 f2 [] h = refl
  find-update_none p q1 q2 f1 f2 (r ∷ rows) h =
      ground (arith, h r, find-update_none p q1 q2 f1 f2 rows h)

  pub find-none-once :
      (p q : R → Bool) (f : R → R) (rows : List R)
      → ((r : R) → p (updated q f r) ≡ false)
      → find p (update_where q f rows) ≡ none
  unfolding find update_where
  find-none-once p q f [] h = refl
  find-none-once p q f (r ∷ rows) h = ground (arith, h r, find-none-once p q f rows h)
