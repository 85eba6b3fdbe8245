-- ===== src/Spider/Normalize/Laws.antt =====
-- What normalizeFetchedSubmitLogs returns: for each submit id the last valid item, and nothing else.
use mathlib.Core.Path.{subst}
use wust_algo_tracker.Prelude.{
  ℕ, suc, ◌+◌, ◌<◌, ◌↔◌, String, ◌≡◌, refl, not, ◌&&◌, Option, none, some, List, [], ◌∷◌, arith,
  str_eq, if◌then◌else◌, length, Bool-cases, inl, inr,
}
use wust_algo_tracker.Spider.Normalize.{
  SubmitLog, Progress, lookup, cleaned, add, add_all, nothing_yet, normalize_fetched_submit_logs,
  is_invalid,
}
use wust_algo_tracker.Spider.Normalize.Rows.{row_of, position, UniqueIds, first_of}
use wust_algo_tracker.Spider.Normalize.Placed.{
  IsIndexed, place-IsIndexed, OfPlatform, place-OfPlatform, row-place, length-place,
  place-UniqueIds,
}

module _ (user_id : ℕ) (platform : String) where
  -- The last valid item of this id, cleaned: what a fetch says of a submission.
  unfoldable pub latest : String → List SubmitLog → Option SubmitLog
  latest id [] = none
  latest id (item ∷ logs) = first_of (latest id logs) (
      if not (is_invalid item) && str_eq (cleaned user_id platform item).submit_id id
      then some (cleaned user_id platform item)
      else none)

  add-IsIndexed :
      (item : SubmitLog) (p : Progress) → IsIndexed p → IsIndexed (add user_id platform item p)
  unfolding add
  add-IsIndexed item p x = elim (Bool-cases (is_invalid item)) [
    | inl e ↦ rw e x
    | inr e ↦ rw e (place-IsIndexed _ (cleaned user_id platform item) p x refl)
  ]

  row-add :
      (item : SubmitLog) (p : Progress) (id : String)
      → IsIndexed p
      → row_of id (add user_id platform item p).normalized
        ≡ first_of
            (if not (is_invalid item) && str_eq (cleaned user_id platform item).submit_id id
              then some (cleaned user_id platform item)
              else none)
            (row_of id p.normalized)
  unfolding add
  row-add item p id x = elim (Bool-cases (is_invalid item)) [
    | inl e ↦ rw e refl
    | inr e ↦ rw e (
        ground (
          arith,
          row-place (lookup (cleaned user_id platform item).submit_id p.index)
              (cleaned user_id platform item) p id x refl,
        ))
  ]

  length-add :
      (item : SubmitLog) (p : Progress)
      → length (add user_id platform item p).normalized + (add user_id platform item p).skipped
        ≡ suc (length p.normalized + p.skipped)
  unfolding add
  length-add item p = elim (Bool-cases (is_invalid item)) [
    | inl e ↦ rw e (omega arith)
    | inr e ↦ rw e (
        length-place (lookup (cleaned user_id platform item).submit_id p.index)
          (cleaned user_id platform item) p)
  ]

  row-add_all :
      (logs : List SubmitLog) (p : Progress) (id : String)
      → IsIndexed p
      → row_of id (add_all user_id platform logs p).normalized
        ≡ first_of (latest id logs) (row_of id p.normalized)
  unfolding add_all latest
  row-add_all [] p id x = refl
  row-add_all (item ∷ logs) p id x = ground (
    arith,
    row-add_all logs (add user_id platform item p) id (add-IsIndexed item p x),
    row-add item p id x,
    latest id logs,
  )

  length-add_all :
      (logs : List SubmitLog) (p : Progress)
      → length (add_all user_id platform logs p).normalized
          + (add_all user_id platform logs p).skipped
        ≡ length logs + (length p.normalized + p.skipped)
  unfolding add_all
  length-add_all [] p = omega arith
  length-add_all (item ∷ logs) p =
      omega (arith, length-add_all logs (add user_id platform item p), length-add item p)

  add-UniqueIds :
      (item : SubmitLog) (p : Progress)
      → IsIndexed p
      → UniqueIds p.normalized
      → UniqueIds (add user_id platform item p).normalized
  unfolding add
  add-UniqueIds item p x u = elim (Bool-cases (is_invalid item)) [
    | inl e ↦ rw e u
    | inr e ↦ rw e (
        place-UniqueIds (lookup (cleaned user_id platform item).submit_id p.index)
          (cleaned user_id platform item) p x refl u)
  ]

  UniqueIds-add_all :
      (logs : List SubmitLog) (p : Progress)
      → IsIndexed p
      → UniqueIds p.normalized
      → UniqueIds (add_all user_id platform logs p).normalized
  unfolding add_all
  UniqueIds-add_all [] p x u = u
  UniqueIds-add_all (item ∷ logs) p x u =
      UniqueIds-add_all logs (add user_id platform item p) (add-IsIndexed item p x)
        (add-UniqueIds item p x u)

  add-OfPlatform :
      (item : SubmitLog) (p : Progress)
      → OfPlatform user_id platform p.normalized
      → OfPlatform user_id platform (add user_id platform item p).normalized
  unfolding add cleaned
  add-OfPlatform item p o = elim (Bool-cases (is_invalid item)) [
    | inl e ↦ rw e o
    | inr e ↦ rw e (
        place-OfPlatform user_id platform (lookup (cleaned user_id platform item).submit_id p.index)
          (cleaned user_id platform item) p (refl, refl) o)
  ]

  OfPlatform-add_all :
      (logs : List SubmitLog) (p : Progress)
      → OfPlatform user_id platform p.normalized
      → OfPlatform user_id platform (add_all user_id platform logs p).normalized
  unfolding add_all
  OfPlatform-add_all [] p o = o
  OfPlatform-add_all (item ∷ logs) p o =
      OfPlatform-add_all logs (add user_id platform item p) (add-OfPlatform item p o)

  pub normalize-OfPlatform :
      (logs rows : List SubmitLog)
      → (normalize_fetched_submit_logs user_id platform logs).0 ≡ some rows
      → OfPlatform user_id platform rows
  unfolding normalize_fetched_submit_logs
  normalize-OfPlatform logs rows e =
      let whole : (add_all user_id platform logs nothing_yet).normalized ≡ rows = ground arith in
      subst (OfPlatform user_id platform) whole (OfPlatform-add_all logs nothing_yet tt)

  -- Where a fetch is not rejected, each submit id has one row at most in the result, which is the last
  -- valid item of that id, cleaned; an id without a valid item has none.
  pub normalize-latest :
      (logs rows : List SubmitLog)
      → (normalize_fetched_submit_logs user_id platform logs).0 ≡ some rows
      → UniqueIds rows × ((id : String) → row_of id rows ≡ latest id logs)
  unfolding normalize_fetched_submit_logs lookup position row_of
  normalize-latest logs rows e =
      let whole : (add_all user_id platform logs nothing_yet).normalized ≡ rows = ground arith in
      (
        subst UniqueIds whole (UniqueIds-add_all logs nothing_yet (λ id. refl) tt),
        λ id. ground (arith, whole, row-add_all logs nothing_yet id (λ id. refl), latest id logs),
      )

  -- Where a fetch is not rejected, every item is either a row of the result or counted as skipped.
  pub normalize-counts :
      (logs rows : List SubmitLog)
      → (normalize_fetched_submit_logs user_id platform logs).0 ≡ some rows
      → length rows + (normalize_fetched_submit_logs user_id platform logs).1 ≡ length logs
  unfolding normalize_fetched_submit_logs
  normalize-counts logs rows e = ground (arith, length-add_all logs nothing_yet)

  -- A fetch is rejected exactly if it has items and all of them are skipped.
  normalize-rejects :
      (logs : List SubmitLog)
      → ((normalize_fetched_submit_logs user_id platform logs).0 ≡ none) ↔ (
          (0 < length logs)
          × ((normalize_fetched_submit_logs user_id platform logs).1 ≡ length logs))
  unfolding normalize_fetched_submit_logs
  normalize-rejects logs = (
    λ e. ground (arith, length-add_all logs nothing_yet),
    λ h. ground (arith, length-add_all logs nothing_yet),
  )
