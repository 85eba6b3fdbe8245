-- ===== src/Spider/Store/Retries.antt =====
-- The attempts of loadOnePlatform.
use wust_algo_tracker.Prelude.{
  ℕ, zero, suc, ◌+◌, ◌≤◌, String, ◌≡◌, refl, ◌∙◌, Bool, true, false, List, arith, str_eq,
  if◌then◌else◌, Bool-cases, inl, inr,
}
use wust_algo_tracker.Spider.Normalize.{SubmitLog}
use wust_algo_tracker.Spider.Store.{
  Plugin, Outcome, saved, refused, fetch_and_save, stops, exhausted, attempts, load_one_platform,
}
use wust_algo_tracker.Spider.Store.Laws.{Untouched, fetch_and_save-Untouched}

Untouched-attempts :
    (rows : List SubmitLog) (r r' : Outcome × List SubmitLog) (mentions : String → Bool)
    (need_all : Bool)
    → stops mentions need_all r.0 ≡ false
    → Untouched rows r
    → Untouched r.1 r'
    → Untouched rows r'
unfolding stops
Untouched-attempts rows (saved count skipped, after) r' mentions need_all s u u' =
    absurd (ground arith)
Untouched-attempts rows (refused skipped e, after) (saved c k, after') mentions need_all s u u' = tt
Untouched-attempts rows (refused skipped e, after) (refused k e', after') mentions need_all s u u' =
    u' ∙ u

Untouched-exhausted :
    (rows : List SubmitLog) (r : Outcome × List SubmitLog)
    → Untouched rows r
    → Untouched rows (exhausted r.0, r.1)
unfolding exhausted
Untouched-exhausted rows (saved count skipped, after) u = tt
Untouched-exhausted rows (refused skipped e, after) u = u

module _ (mentions : String → Bool) (attempt : ℕ → Plugin) (user_id : ℕ) (platform : String)
    (need_all : Bool) where
  attempts-Untouched :
      (i left : ℕ) (rows : List SubmitLog)
      → Untouched rows (attempts mentions attempt user_id platform need_all i left rows).0
  unfolding attempts
  attempts-Untouched i zero rows =
      elim (Bool-cases
        (stops mentions need_all (fetch_and_save (attempt i) user_id platform need_all rows).0)) [
          | inl s ↦ rw s (fetch_and_save-Untouched (attempt i) user_id platform need_all rows)
          | inr s ↦ rw s (
              Untouched-exhausted rows _
                (fetch_and_save-Untouched (attempt i) user_id platform need_all rows))
        ]
  attempts-Untouched i (suc left) rows =
      let r = fetch_and_save (attempt i) user_id platform need_all rows in
      elim (Bool-cases (stops mentions need_all r.0)) [
        | inl s ↦ rw s (fetch_and_save-Untouched (attempt i) user_id platform need_all rows)
        | inr s ↦ rw s (
            Untouched-attempts rows r _ mentions need_all s
              (fetch_and_save-Untouched (attempt i) user_id platform need_all rows)
              (attempts-Untouched (suc i) left r.1))
      ]

  attempts-bound :
      (i left : ℕ) (rows : List SubmitLog)
      → (attempts mentions attempt user_id platform need_all i left rows).1 ≤ suc (i + left)
  unfolding attempts
  attempts-bound i zero rows = omega arith
  attempts-bound i (suc left) rows = ground (
    arith,
    attempts-bound (suc i) left (fetch_and_save (attempt i) user_id platform need_all rows).1,
  )

  -- A refresh of a platform makes 12 attempts at most, and one only for CodeForces.
  pub load_one_platform-bound :
      (rows : List SubmitLog)
      → (load_one_platform mentions attempt user_id platform need_all rows).1
        ≤ (if str_eq platform "CodeForces" then 1 else 12)
  unfolding load_one_platform
  load_one_platform-bound rows = ground (arith, attempts-bound 0 0 rows, attempts-bound 0 11 rows)

  -- A refresh of a platform that returns an error, after however many attempts, has left the stored
  -- submissions as they were.
  pub load_one_platform-Untouched :
      (rows : List SubmitLog)
      → Untouched rows (load_one_platform mentions attempt user_id platform need_all rows).0
  unfolding load_one_platform
  load_one_platform-Untouched rows =
      attempts-Untouched 0 (if str_eq platform "CodeForces" then 0 else 11) rows

stops-once : (mentions : String → Bool) (o : Outcome) → stops mentions false o ≡ true
unfolding stops
stops-once mentions (saved count skipped) = refl
stops-once mentions (refused skipped e) = ground arith

-- An incremental refresh makes exactly one attempt.
pub load_one_platform-once :
    (mentions : String → Bool) (attempt : ℕ → Plugin) (user_id : ℕ) (platform : String)
    (rows : List SubmitLog)
    → load_one_platform mentions attempt user_id platform false rows
      ≡ (fetch_and_save (attempt 0) user_id platform false rows, 1)
unfolding load_one_platform attempts
load_one_platform-once mentions attempt user_id platform rows =
    elim (Bool-cases (str_eq platform "CodeForces")) [
      | inl e ↦
          rw e (
            rw (stops-once mentions (fetch_and_save (attempt 0) user_id platform false rows).0)
              refl)
      | inr e ↦
          rw e (
            rw (stops-once mentions (fetch_and_save (attempt 0) user_id platform false rows).0)
              refl)
    ]
