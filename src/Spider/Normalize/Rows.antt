-- ===== src/Spider/Normalize/Rows.antt =====
-- Rows by their submit id: the first row with an id and its position, after an item was placed.
use mathlib.Core.Option
use mathlib.Core.Path.{subst}
use wust_algo_tracker.Prelude.{
  ℕ, zero, suc, String, ◌≡◌, refl, sym, ap, ◌∙◌, true, Option, none, some, List, [], ◌∷◌, ◌++◌,
  arith, str_eq, str_eq_iff, if◌then◌else◌, length, Bool-cases, inl, inr,
}
use wust_algo_tracker.Spider.Normalize.{SubmitLog, set_at}

-- The first row with this submit id.
unfoldable pub row_of : String → List SubmitLog → Option SubmitLog
row_of id [] = none
row_of id (r ∷ rows) = if str_eq r.submit_id id then some r else row_of id rows

unfoldable pub position : String → List SubmitLog → Option ℕ
position id [] = none
position id (r ∷ rows) = if str_eq r.submit_id id then some 0 else Option.map suc (position id rows)

-- No two rows have the same submit id.
abbrev pub UniqueIds : List SubmitLog → Type 0
UniqueIds [] = Unit
UniqueIds (r ∷ rows) = (row_of r.submit_id rows ≡ none) × UniqueIds rows

abbrev pub first_of : {A : Type 0} → Option A → Option A → Option A
first_of (some a) b = some a
first_of none b = b

pub str_same : (a b c : String) → str_eq a b ≡ true → str_eq a c ≡ str_eq b c
str_same a b c e = ap (λ x. str_eq x c) ((str_eq_iff a b).0 e)

pub str_join : (a b c : String) → str_eq a c ≡ true → str_eq b c ≡ true → str_eq a b ≡ true
str_join a b c e f = (str_eq_iff a b).1 ((str_eq_iff a c).0 e ∙ sym ((str_eq_iff b c).0 f))

pub str_swap : (a b : String) → str_eq a b ≡ str_eq b a
str_swap a b = elim (Bool-cases (str_eq a b)) [
  | inl e ↦ e ∙ sym ((str_eq_iff b a).1 (sym ((str_eq_iff a b).0 e)))
  | inr e ↦ elim (Bool-cases (str_eq b a)) [
    | inl f ↦ absurd (ground (arith, (str_eq_iff a b).1 (sym ((str_eq_iff b a).0 f))))
    | inr f ↦ e ∙ sym f
  ]
]

module _ (item : SubmitLog) where
  pub row-append :
      (id : String) (rows : List SubmitLog)
      → row_of id (rows ++ item ∷ [])
        ≡ first_of (row_of id rows) (if str_eq item.submit_id id then some item else none)
  unfolding row_of
  row-append id [] = refl
  row-append id (r ∷ rows) = ground (arith, row-append id rows)

  pub position-append :
      (id : String) (rows : List SubmitLog)
      → position id (rows ++ item ∷ [])
        ≡ first_of
            (position id rows)
            (if str_eq item.submit_id id then some (length rows) else none)
  unfolding position
  position-append id [] = refl
  position-append id (r ∷ rows) = ground (arith, position-append id rows)

  pub row-none :
      (id : String) (rows : List SubmitLog) → position id rows ≡ none → row_of id rows ≡ none
  unfolding row_of position
  row-none id [] h = refl
  row-none id (r ∷ rows) h = ground (arith, row-none id rows)

  pub position-set :
      (i : ℕ) (id : String) (rows : List SubmitLog)
      → position item.submit_id rows ≡ some i
      → position id (set_at i item rows) ≡ position id rows
  unfolding position set_at
  position-set i id [] h = ground arith
  position-set zero id (r ∷ rows) h = ground (arith, str_same r.submit_id item.submit_id id)
  position-set (suc i) id (r ∷ rows) h = ground (arith, position-set i id rows)

  pub row-set :
      (i : ℕ) (id : String) (rows : List SubmitLog)
      → position item.submit_id rows ≡ some i
      → row_of id (set_at i item rows)
        ≡ (if str_eq item.submit_id id then some item else row_of id rows)
  unfolding position set_at row_of
  row-set i id [] h = ground arith
  row-set zero id (r ∷ rows) h = ground (arith, str_same r.submit_id item.submit_id id)
  row-set (suc i) id (r ∷ rows) h =
      ground (arith, row-set i id rows, str_join r.submit_id item.submit_id id)

  pub length-set : (i : ℕ) (rows : List SubmitLog) → length (set_at i item rows) ≡ length rows
  unfolding set_at
  length-set i [] = refl
  length-set zero (r ∷ rows) = refl
  length-set (suc i) (r ∷ rows) = ap suc (length-set i rows)

  pub append-UniqueIds :
      (rows : List SubmitLog)
      → row_of item.submit_id rows ≡ none
      → UniqueIds rows
      → UniqueIds (rows ++ item ∷ [])
  unfolding row_of
  append-UniqueIds [] h u = (refl, tt)
  append-UniqueIds (r ∷ rows) h u = ground (
    arith,
    append-UniqueIds rows,
    u,
    row-append r.submit_id rows,
    str_swap r.submit_id item.submit_id,
  )

  pub set-UniqueIds :
      (i : ℕ) (rows : List SubmitLog)
      → position item.submit_id rows ≡ some i
      → UniqueIds rows
      → UniqueIds (set_at i item rows)
  unfolding set_at row_of position
  set-UniqueIds i [] h u = tt
  set-UniqueIds zero (r ∷ rows) h u = (
    subst (λ s. row_of s rows ≡ none) ((str_eq_iff r.submit_id item.submit_id).0 (ground arith))
        u.0,
    u.1,
  )
  set-UniqueIds (suc i) (r ∷ rows) h u = (
    ground (arith, row-set i r.submit_id rows, str_swap r.submit_id item.submit_id),
    set-UniqueIds i rows (ground arith) u.1,
  )
