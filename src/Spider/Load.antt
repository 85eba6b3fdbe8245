-- ===== src/Spider/Load.antt =====
-- LoadData of app/core_data/internal/biz/service/spider.go: the run of one refresh job over the
-- platforms that a user has bound. The parameters are what the plugins answer, which platforms were
-- refreshed a short time ago, and the text that fmt makes of errors. The rows of spider_sync_statuses,
-- the contests and the caches are left out.
pub mod Laws
use wust_algo_tracker.Prelude.{
  ℕ, zero, suc, ◌+◌, String, Bool, true, false, not, ◌&&◌, ◌||◌, Option, none, some, List, [], ◌∷◌,
  ◌++◌, ◌==◌, str_eq, if◌then◌else◌, length,
}
use wust_algo_tracker.Table.{select}
use wust_algo_tracker.Text.{is_empty}
use wust_algo_tracker.Spider.Normalize.{SubmitLog}
use wust_algo_tracker.Spider.Store.{Plugin, FetchError, Outcome, saved, refused, load_one_platform}
use wust_algo_tracker.Spider.Jobs.{
  Queue, success, failed, start_job, set_current_platform, finish_platform, finish_job,
}

-- What LoadData returns.
pub data Loaded : Type 0 where
  loaded : Loaded
  not_bound : String → Loaded
  platforms_failed : List (String × FetchError) → Loaded

-- The tables that a run writes.
pub record World : Type 0 where
  pub queue : Queue
  pub submit_logs : List SubmitLog

-- One more platform that failed, in front of those that follow.
unfoldable pub with_outcome :
    String → Outcome → List (String × FetchError) → List (String × FetchError)
with_outcome platform (saved count skipped) failures = failures
with_outcome platform (refused skipped e) failures = (platform, e) ∷ failures

module _ (mentions : String → Bool) (attempt : String → ℕ → Plugin) (recent : String → Bool)
    (describe : Loaded → String) where
  -- The body of the loop.
  unfoldable pub load_platform : ℕ → ℕ → ℕ → Bool → String → World → Outcome × World
  unfolding load_one_platform set_current_platform finish_platform
  load_platform now job_id user_id need_all platform w =
      let r =
        (load_one_platform mentions (attempt platform) user_id platform need_all w.submit_logs).0 in
      (
        r.0,
        record {
          queue =
              finish_platform now job_id platform
                (set_current_platform now job_id platform w.queue);
          submit_logs = r.1;
        },
      )

  -- The loop: the platforms that failed, and the tables.
  unfoldable pub load_platforms :
      ℕ → ℕ → ℕ → Bool → List String → World → List (String × FetchError) × World
  unfolding load_platform with_outcome
  load_platforms now job_id user_id need_all [] w = ([], w)
  load_platforms now job_id user_id need_all (platform ∷ platforms) w =
      let r = load_platform now job_id user_id need_all platform w in
      let later = load_platforms now job_id user_id need_all platforms r.1 in
      (with_outcome platform r.0 later.0, later.1)

  -- finishJob and the value that is returned.
  unfoldable pub conclude : ℕ → ℕ → Loaded → World → Loaded × World
  unfolding finish_job
  conclude now job_id loaded w =
      (loaded, record w { queue = finish_job now job_id success "" w.queue })
  conclude now job_id result w =
      (result, record w { queue = finish_job now job_id failed (describe result) w.queue })

  -- What is returned for the platforms that failed.
  unfoldable pub result_of : List (String × FetchError) → Loaded
  result_of [] = loaded
  result_of (f ∷ failures) = platforms_failed (f ∷ failures)

  -- LoadData, from startJob on.
  unfoldable pub run_job : ℕ → ℕ → ℕ → Bool → List String → World → Loaded × World
  unfolding load_platforms conclude result_of start_job
  run_job now job_id user_id need_all platforms w =
      let r =
        load_platforms now job_id user_id need_all platforms
          (record w { queue = start_job now job_id (length platforms) w.queue }) in
      conclude now job_id (result_of r.0) r.1

  -- LoadData, for the platforms that the query found.
  unfoldable pub load_bound : ℕ → ℕ → ℕ → Bool → String → List String → World → Loaded × World
  unfolding run_job select conclude start_job
  load_bound now job_id user_id need_all target [] w = conclude now job_id (not_bound target) w
  load_bound now job_id user_id need_all target (platform ∷ platforms) w =
      if is_empty target
      then run_job now job_id user_id need_all (select (λ p. not (recent p)) (platform ∷ platforms))
          w
      else if recent platform
      then conclude now job_id loaded (record w { queue = start_job now job_id 0 w.queue })
      else run_job now job_id user_id need_all (platform ∷ platforms) w

  -- LoadData of a user with these bound platforms; an empty target is all of them.
  unfoldable pub load_data : ℕ → ℕ → ℕ → Bool → String → List String → World → Loaded × World
  unfolding load_bound select
  load_data now job_id user_id need_all target bound w =
      load_bound now job_id user_id need_all target
        (if is_empty target then bound else select (λ p. str_eq p target) bound) w
