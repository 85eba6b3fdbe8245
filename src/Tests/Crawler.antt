-- ===== src/Tests/Crawler.antt =====
-- Fetched submissions and refresh jobs at small inputs.
use wust_algo_tracker.Prelude.{
  any, count_where, Option, ◌==◌, ℕ, ◌+◌, ◌≤◌, String, ◌≡◌, refl, Bool, true, false, none, some,
  List, [], ◌∷◌, arith, str_eq, length, if◌then◌else◌,
}
use wust_algo_tracker.Text.{trim_space}
use wust_algo_tracker.Spider.Normalize.{SubmitLog, normalize_fetched_submit_logs}
use wust_algo_tracker.Spider.Normalize.Rows.{UniqueIds, row_of, first_of}
use wust_algo_tracker.Spider.Normalize.Laws.{latest, normalize-latest, normalize-counts}
use wust_algo_tracker.Spider.Store.{Plugin, fetches, fails, fetch_and_save, load_one_platform}
use wust_algo_tracker.Spider.Store.Laws.{stored, kept, Untouched, fetch_and_save-stored}
use wust_algo_tracker.Spider.Store.Retries.{load_one_platform-bound, load_one_platform-Untouched}
use wust_algo_tracker.Spider.Jobs.{
  Queue, enqueued, already_active, newest, do_refresh, start_job, set_current_platform,
}
use wust_algo_tracker.Spider.Store.Counts.{count_of, fetch_and_save-count}
use wust_algo_tracker.Spider.Jobs.Laws.{do_refresh-twice, do_refresh-overlaps}
use wust_algo_tracker.Permission.{JwtPayload}
use wust_algo_tracker.Spider.Service.{RebuildAllReply, rebuild_all, bound_users}
use wust_algo_tracker.Spider.Service.Laws.{rebuild_all-counts}
use wust_algo_tracker.Contest.Official.{Platform}
use wust_algo_tracker.Spider.Load.{Loaded, World, load_data}
use wust_algo_tracker.Spider.Load.Laws.{Finished, load_data-Finished}

abbrev log_of : String → String → SubmitLog
log_of id status = record {
  platform = "";
  user_id = 0;
  submit_id = id;
  contest = "";
  problem = "A";
  lang = "Go";
  status = status;
  time = some 1;
}

-- A repeated submission and one without an id.
abbrev fetched : List SubmitLog
fetched = log_of "7" "WA" ∷ log_of " 7" "AC" ∷ log_of " " "AC" ∷ []

abbrev rows : List SubmitLog
rows =
    record {
      platform = "AtCoder";
      user_id = 3;
      submit_id = "7";
      contest = "";
      problem = "A";
      lang = "Go";
      status = "AC";
      time = some 1;
    }
    ∷ []

normalize-latest_example :
    UniqueIds rows × ((id : String) → row_of id rows ≡ latest 3 "AtCoder" id fetched)
unfolding normalize_fetched_submit_logs trim_space
normalize-latest_example = normalize-latest 3 "AtCoder" fetched rows refl

normalize-counts_example :
    length rows + (normalize_fetched_submit_logs 3 "AtCoder" fetched).1 ≡ length fetched
unfolding normalize_fetched_submit_logs trim_space
normalize-counts_example = normalize-counts 3 "AtCoder" fetched rows refl

fetch_and_save-stored_example :
    stored "AtCoder" "7" (fetch_and_save (fetches fetched) 3 "AtCoder" true rows).1 ≡ (
      if str_eq "AtCoder" "AtCoder"
      then first_of
          (latest 3 "AtCoder" "7" fetched)
          (stored "AtCoder" "7" (kept 3 "AtCoder" true rows))
      else stored "AtCoder" "7" (kept 3 "AtCoder" true rows))
unfolding fetch_and_save trim_space
fetch_and_save-stored_example =
    fetch_and_save-stored fetched 3 "AtCoder" true rows 1 2 refl "AtCoder" "7"

fetch_and_save-count_example :
    (count_of 3 "AtCoder" (fetch_and_save (fetches fetched) 3 "AtCoder" true rows).1 ≡ 1)
    × (count_of 3 "AtCoder" rows ≤ 1)
unfolding fetch_and_save trim_space
fetch_and_save-count_example = fetch_and_save-count 3 "AtCoder" fetched rows 1 2 refl

abbrev nothing_final : String → Bool
nothing_final text = false

abbrev always_down : ℕ → Plugin
always_down i = fails "timeout"

load_one_platform-Untouched_example :
    Untouched rows (load_one_platform nothing_final always_down 3 "AtCoder" true rows).0
load_one_platform-Untouched_example =
    load_one_platform-Untouched nothing_final always_down 3 "AtCoder" true rows

load_one_platform-bound_example :
    (load_one_platform nothing_final always_down 3 "AtCoder" true rows).1
    ≤ (if str_eq "AtCoder" "CodeForces" then 1 else 12)
load_one_platform-bound_example =
    load_one_platform-bound nothing_final always_down 3 "AtCoder" true rows

abbrev idle : Queue
idle = record { jobs = []; next_job = 1; events = [] }

do_refresh-twice_example :
    do_refresh 160 3 true "manual" 3 "AtCoder" none
      (do_refresh 100 3 true "manual" 3 "AtCoder" none idle).1
    ≡ (already_active 1, (do_refresh 100 3 true "manual" 3 "AtCoder" none idle).1)
unfolding do_refresh
do_refresh-twice_example =
    do_refresh-twice 100 160 3 true true "manual" "manual" 3 3 "AtCoder" none idle (ground arith) 1
      refl

do_refresh-overlaps_example :
    ((do_refresh 100 3 true "manual" 3 "" none idle).0 ≡ enqueued 1)
    × ((do_refresh 160 3 true "manual" 3 "" none (
          set_current_platform 120 1 "AtCoder"
            (start_job 120 1 1 (do_refresh 100 3 true "manual" 3 "" none idle).1))).0
        ≡ enqueued 2)
unfolding newest
do_refresh-overlaps_example =
    do_refresh-overlaps 100 160 120 3 true true "manual" "manual" 3 3 "AtCoder" idle refl refl
      (ground arith) refl

abbrev world : World
world = record { queue = (do_refresh 100 3 true "manual" 3 "" none idle).1; submit_logs = rows }

abbrev no_text : Loaded → String
no_text result = ""

load_data-Finished_example : Finished 1 (
    load_data nothing_final
      (λ p. always_down)
      nothing_final
      no_text
      120
      1
      3
      true
      ""
      ("AtCoder" ∷ [])
      world)
load_data-Finished_example =
    load_data-Finished nothing_final (λ p. always_down) nothing_final no_text 120 1 3 true ""
      ("AtCoder" ∷ []) world (ground arith)

-- A job that has failed, of the user 3.
abbrev coach : JwtPayload
coach = record { user_id = 1; username = ""; name = ""; email = ""; role_id = 2 }

abbrev all_published : ℕ → Option String
all_published user_id = none

abbrev rebuilt : RebuildAllReply
rebuilt = record { total_users = 2; queued_jobs = 2; skipped = 0; job_ids = 1 ∷ 2 ∷ [] }

abbrev bound : ℕ → String → Platform
bound id name = record { user_id = id; platform = name; username = "u" }

abbrev bindings : List Platform
bindings = bound 4 "AtCoder" ∷ bound 3 "AtCoder" ∷ bound 4 "QOJ" ∷ []

rebuild_all-counts_example :
    (rebuilt.queued_jobs + rebuilt.skipped ≡ length (bound_users bindings))
    × ((id : ℕ)
        → count_where (λ i. id == i) (bound_users bindings)
          ≡ (if any (λ p. id == p.user_id) bindings then 1 else 0))
unfolding rebuild_all
rebuild_all-counts_example =
    rebuild_all-counts 160 (some coach) all_published bindings idle rebuilt refl
