-- ===== src/Spider/Normalize/Placed.antt =====
-- One item placed by normalizeFetchedSubmitLogs: the index, the rows and their number after it.
use wust_algo_tracker.Prelude.{
  ℕ, zero, suc, ◌+◌, String, ◌≡◌, sym, ap, ◌∙◌, Option, none, some, List, [], ◌∷◌, ◌++◌, arith,
  str_eq, str_eq_iff, if◌then◌else◌, length, length-append, Bool-cases, inl, inr,
}
use wust_algo_tracker.Spider.Normalize.{SubmitLog, Progress, lookup, set_at, place}
use wust_algo_tracker.Spider.Normalize.Rows.{
  row_of, position, UniqueIds, row-append, position-append, row-none, position-set, row-set,
  length-set, set-UniqueIds, append-UniqueIds,
}

-- The map has the position of each id's row, and nothing else.
abbrev pub IsIndexed : Progress → Type 0
IsIndexed p = (id : String) → lookup id p.index ≡ position id p.normalized

pub place-IsIndexed :
    (o : Option ℕ) (item : SubmitLog) (p : Progress)
    → IsIndexed p
    → lookup item.submit_id p.index ≡ o
    → IsIndexed (place o item p)
unfolding place lookup
place-IsIndexed (some i) item p x e =
    λ id. ground (arith, x id, x item.submit_id, position-set item i id p.normalized)
place-IsIndexed none item p x e = λ id. elim (Bool-cases (str_eq item.submit_id id)) [
  | inl same ↦ ground (
    arith,
    x id,
    x item.submit_id,
    position-append item id p.normalized,
    ap (λ s. position s p.normalized) ((str_eq_iff item.submit_id id).0 same),
  )
  | inr other ↦ ground (arith, x id, position-append item id p.normalized, position id p.normalized)
]

-- Every row is of this user and platform.
abbrev pub OfPlatform : ℕ → String → List SubmitLog → Type 0
OfPlatform user_id platform [] = Unit
OfPlatform user_id platform (r ∷ rows) =
    ((r.user_id ≡ user_id) × (r.platform ≡ platform)) × OfPlatform user_id platform rows

pub append-OfPlatform :
    (user_id : ℕ) (platform : String) (item : SubmitLog) (rows : List SubmitLog)
    → (item.user_id ≡ user_id) × (item.platform ≡ platform)
    → OfPlatform user_id platform rows
    → OfPlatform user_id platform (rows ++ item ∷ [])
append-OfPlatform user_id platform item [] h o = (h, tt)
append-OfPlatform user_id platform item (r ∷ rows) h o =
    (o.0, append-OfPlatform user_id platform item rows h o.1)

pub set-OfPlatform :
    (user_id : ℕ) (platform : String) (i : ℕ) (item : SubmitLog) (rows : List SubmitLog)
    → (item.user_id ≡ user_id) × (item.platform ≡ platform)
    → OfPlatform user_id platform rows
    → OfPlatform user_id platform (set_at i item rows)
unfolding set_at
set-OfPlatform user_id platform i item [] h o = tt
set-OfPlatform user_id platform zero item (r ∷ rows) h o = (h, o.1)
set-OfPlatform user_id platform (suc i) item (r ∷ rows) h o =
    (o.0, set-OfPlatform user_id platform i item rows h o.1)

pub place-OfPlatform :
    (user_id : ℕ) (platform : String) (o : Option ℕ) (item : SubmitLog) (p : Progress)
    → (item.user_id ≡ user_id) × (item.platform ≡ platform)
    → OfPlatform user_id platform p.normalized
    → OfPlatform user_id platform (place o item p).normalized
unfolding place
place-OfPlatform user_id platform (some i) item p h o =
    set-OfPlatform user_id platform i item p.normalized h o
place-OfPlatform user_id platform none item p h o =
    append-OfPlatform user_id platform item p.normalized h o

-- After an item was placed its id has that row, and every other id the row it had.
pub row-place :
    (o : Option ℕ) (item : SubmitLog) (p : Progress) (id : String)
    → IsIndexed p
    → lookup item.submit_id p.index ≡ o
    → row_of id (place o item p).normalized
      ≡ (if str_eq item.submit_id id then some item else row_of id p.normalized)
unfolding place
row-place (some i) item p id x e = ground (arith, x item.submit_id, row-set item i id p.normalized)
row-place none item p id x e = elim (Bool-cases (str_eq item.submit_id id)) [
  | inl same ↦ ground (
    arith,
    x item.submit_id,
    row-append item id p.normalized,
    row-none item item.submit_id p.normalized,
    ap (λ s. row_of s p.normalized) ((str_eq_iff item.submit_id id).0 same),
  )
  | inr other ↦ ground (arith, row-append item id p.normalized, row_of id p.normalized)
]

-- Rows placed and items skipped are one more together.
pub length-place :
    (o : Option ℕ) (item : SubmitLog) (p : Progress)
    → length (place o item p).normalized + (place o item p).skipped
      ≡ suc (length p.normalized + p.skipped)
unfolding place
length-place (some i) item p = omega (arith, length-set item i p.normalized)
length-place none item p = omega (arith, length-append p.normalized (item ∷ []))

pub place-UniqueIds :
    (o : Option ℕ) (item : SubmitLog) (p : Progress)
    → IsIndexed p
    → lookup item.submit_id p.index ≡ o
    → UniqueIds p.normalized
    → UniqueIds (place o item p).normalized
unfolding place
place-UniqueIds (some i) item p x e u =
    set-UniqueIds item i p.normalized (sym (x item.submit_id) ∙ e) u
place-UniqueIds none item p x e u =
    append-UniqueIds item p.normalized
      (row-none item item.submit_id p.normalized (sym (x item.submit_id) ∙ e)) u
