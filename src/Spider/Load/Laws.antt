-- ===== src/Spider/Load/Laws.antt =====
-- How a run of a refresh job ends.
use wust_algo_tracker.Prelude.{
  ℕ, String, ◌≡◌, ◌≢◌, refl, Bool, true, false, not, ◌&&◌, none, List, [], ◌∷◌, arith, ◌==◌, str_eq,
  if◌then◌else◌, Bool-cases, inl, inr,
}
use wust_algo_tracker.Table.{update_where, select}
use wust_algo_tracker.Text.{is_empty}
use wust_algo_tracker.Spider.Store.{Plugin}
use wust_algo_tracker.Spider.Jobs.{
  Job, JobStatus, Queue, success, failed, newest, finish_job, update_job, start_job,
}
use wust_algo_tracker.Spider.Load.{
  Loaded, loaded, not_bound, platforms_failed, World, conclude, load_bound, load_data, run_job,
}

abbrev is_success : JobStatus → Bool
is_success success = true
is_success _ = false

abbrev is_failed : JobStatus → Bool
is_failed failed = true
is_failed _ = false

-- The jobs of this id are finished: with success where LoadData returned no error, else as failed.
abbrev pub Finished : ℕ → Loaded × World → Type 0
Finished job_id (loaded, w) =
    newest (λ j. j.id == job_id && not (is_success j.status)) w.queue.jobs ≡ none
Finished job_id (_, w) =
    newest (λ j. j.id == job_id && not (is_failed j.status)) w.queue.jobs ≡ none

newest-updated :
    (p q : Job → Bool) (f : Job → Job) (jobs : List Job)
    → ((j : Job) → p (if q j then f j else j) ≡ false)
    → newest p (update_where q f jobs) ≡ none
unfolding newest update_where
newest-updated p q f [] h = refl
newest-updated p q f (j ∷ jobs) h = ground (arith, h j, newest-updated p q f jobs h)

finish_job-jobs :
    (now id : ℕ) (status : JobStatus) (text : String) (q : Queue)
    → id ≢ 0
    → (finish_job now id status text q).jobs
      ≡ update_where
          (λ j. j.id == id)
          (λ j. record j { status = status; error = text; updated_at = now })
          q.jobs
unfolding finish_job update_job
finish_job-jobs now id status text q nz = ground arith

finish_job-none :
    (p : JobStatus → Bool) (now id : ℕ) (status : JobStatus) (text : String) (q : Queue)
    → id ≢ 0
    → p status ≡ true
    → newest (λ j. j.id == id && not (p j.status)) (finish_job now id status text q).jobs ≡ none
finish_job-none p now id status text q nz h = rw (finish_job-jobs now id status text q nz) (
    newest-updated _ (λ j. j.id == id)
      (λ j. record j { status = status; error = text; updated_at = now }) q.jobs
      (λ j. ground arith))

module _ (mentions : String → Bool) (attempt : String → ℕ → Plugin) (recent : String → Bool)
    (describe : Loaded → String) where
  conclude-Finished :
      (now job_id : ℕ) (result : Loaded) (w : World)
      → job_id ≢ 0
      → Finished job_id (conclude mentions attempt recent describe now job_id result w)
  unfolding conclude
  conclude-Finished now job_id loaded w nz =
      finish_job-none is_success now job_id success "" w.queue nz refl
  conclude-Finished now job_id (not_bound target) w nz =
      finish_job-none is_failed now job_id failed _ w.queue nz refl
  conclude-Finished now job_id (platforms_failed failures) w nz =
      finish_job-none is_failed now job_id failed _ w.queue nz refl

  run_job-Finished :
      (now job_id user_id : ℕ) (need_all : Bool) (platforms : List String) (w : World)
      → job_id ≢ 0
      → Finished job_id
          (run_job mentions attempt recent describe now job_id user_id need_all platforms w)
  unfolding run_job
  run_job-Finished now job_id user_id need_all platforms w nz = conclude-Finished now job_id _ _ nz

  load_bound-Finished :
      (now job_id user_id : ℕ) (need_all : Bool) (target : String) (bound : List String) (w : World)
      → job_id ≢ 0
      → Finished job_id
          (load_bound mentions attempt recent describe now job_id user_id need_all target bound w)
  unfolding load_bound
  load_bound-Finished now job_id user_id need_all target [] w nz =
      conclude-Finished now job_id (not_bound target) w nz
  load_bound-Finished now job_id user_id need_all target (platform ∷ platforms) w nz =
      elim (Bool-cases (is_empty target)) [
        | inl e ↦ rw e (
            run_job-Finished now job_id user_id need_all
              (select (λ p. not (recent p)) (platform ∷ platforms)) w nz)
        | inr e ↦ rw e (elim (Bool-cases (recent platform)) [
          | inl r ↦ rw r (
              conclude-Finished now job_id loaded
                (record w { queue = start_job now job_id 0 w.queue }) nz)
          | inr r ↦ rw r (run_job-Finished now job_id user_id need_all (platform ∷ platforms) w nz)
        ])
      ]

  -- A run of a job, with whatever the platforms answer, leaves no job of that id queued or running:
  -- its status is success where LoadData returns no error, and failed where it returns one.
  pub load_data-Finished :
      (now job_id user_id : ℕ) (need_all : Bool) (target : String) (bound : List String) (w : World)
      → job_id ≢ 0
      → Finished job_id
          (load_data mentions attempt recent describe now job_id user_id need_all target bound w)
  unfolding load_data
  load_data-Finished now job_id user_id need_all target bound w nz =
      load_bound-Finished now job_id user_id need_all target
        (if is_empty target then bound else select (λ p. str_eq p target) bound) w nz
