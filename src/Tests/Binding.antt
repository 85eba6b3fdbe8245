-- ===== src/Tests/Binding.antt =====
-- A user who binds an account and asks for refreshes.
use wust_algo_tracker.Prelude.{
  ℕ, ◌+◌, ◌≤◌, ◌≡◌, refl, Bool, true, false, Option, none, some, [], ◌∷◌, ltb, all, length,
  if◌then◌else◌, arith,
}
use wust_algo_tracker.Text.{trim_space}
use wust_algo_tracker.Permission.{JwtPayload}
use wust_algo_tracker.Spider.Jobs.{Job, failed}
use wust_algo_tracker.Spider.Sync.{
  mark_platform_running, is_codeforces_platform, manual_refresh_window,
}
use wust_algo_tracker.Table.{select}
use wust_algo_tracker.Spider.Store.{is_of}
use wust_algo_tracker.Spider.Binding.{
  is_binding_of, RateLimits, Failures, Service, UpdateReply, set_spider, update, get_limiter_by_key,
}
use wust_algo_tracker.Spider.Binding.Laws.{
  IsBound, set_spider-IsBound, set_spider-lost, update-refreshed_lately, update-limited,
}
use wust_algo_tracker.Spider.Listing.{jobs}
use wust_algo_tracker.Spider.Listing.Laws.{is_right, listed, jobs-visible}
use wust_algo_tracker.Contest.Official.{Platform}
use wust_algo_tracker.Tests.Contest.{plain, sent}

-- A limiter: its interval, and when it allows again.
abbrev Limiter : Type 0
Limiter = ℕ × Option ℕ

abbrev allows : ℕ → Limiter → Bool × Limiter
allows now (interval, none) = (true, (interval, some (now + interval)))
allows now (interval, some t) =
    if ltb now t then (false, (interval, some t)) else (true, (interval, some (now + interval)))

abbrev limits : RateLimits Limiter
limits = record { new_limiter = λ interval. (interval, none); allow = allows }

abbrev user : JwtPayload
user = record { user_id = 3; username = "u"; name = "U"; email = ""; role_id = 0 }

abbrev account : Platform
account = record { user_id = 3; platform = "CodeForces"; username = "old" }

abbrev service : Service Limiter
service = record {
  queue = record { jobs = []; next_job = 1; events = [] };
  platforms = account ∷ [];
  statuses = [];
  submit_logs = sent "1" "AC" 60 ∷ [];
  limiters = [];
}

-- The status of the old account stays.
abbrev logged : Failures
logged = record {
  first_platform = false;
  delete_status = true;
  delete_platform = false;
  delete_submit_log = false;
  save_platform = false;
}

set_spider-IsBound_example :
    IsBound 3
      (trim_space " CodeForces")
      (trim_space "new ")
      service
      (set_spider limits plain none logged 100 (some user) 3 " CodeForces" "new " service).1
      3
      "AtCoder"
unfolding set_spider
set_spider-IsBound_example =
    set_spider-IsBound limits plain none logged 100 (some user) 3 " CodeForces" "new " service 3
      "AtCoder" refl refl refl refl

abbrev full : Failures
full = record {
  first_platform = false;
  delete_status = false;
  delete_platform = false;
  delete_submit_log = false;
  save_platform = true;
}

set_spider-lost_example :
    let t = (set_spider limits plain none full 100 (some user) 3 " CodeForces" "new " service).1 in
    (select (is_binding_of 3 (trim_space " CodeForces")) t.platforms ≡ [])
    × (select (is_of 3 (trim_space " CodeForces")) t.submit_logs ≡ [])
    × (t.queue ≡ service.queue)
unfolding set_spider
set_spider-lost_example =
    set_spider-lost limits plain none full 100 (some user) 3 " CodeForces" "new " service refl refl
      refl

update-refreshed_lately_example :
    update limits plain none 160 none 3 "CodeForces" ""
      (record service { statuses = mark_platform_running 100 3 account [] })
    ≡ (
      UpdateReply.refreshed_lately,
      record service { statuses = mark_platform_running 100 3 account [] },
    )
unfolding is_codeforces_platform trim_space
update-refreshed_lately_example =
    update-refreshed_lately limits plain none 100 160 none 3 account "CodeForces" "" service refl
      refl (ground (arith))

update-limited_example :
    (update limits plain none 130
      (some user)
      3
      "AtCoder"
      ""
      (update limits plain none 100 none 3 "AtCoder" "" service).1).1.queue
    ≡ (update limits plain none 100 none 3 "AtCoder" "" service).1.queue
unfolding update manual_refresh_window get_limiter_by_key
update-limited_example =
    update-limited limits plain none (λ interval t now a b. ground (arith, b)) 100 130 none
      (some user) 3 "AtCoder" "" service (ground (arith)) (ground (arith)) refl refl

abbrev others : Job
others = record {
  id = 1;
  user_id = 4;
  requester_id = 3;
  source = "manual";
  status = failed;
  need_all = true;
  current_platform = "AtCoder";
  total_platforms = 1;
  finished_platforms = 0;
  error = "timeout";
  updated_at = 100;
}

jobs-visible_example :
    (length (listed (jobs (some user) "mine" 0 "" 1 20 (others ∷ []))) ≤ 100)
    × (all (is_right user) (listed (jobs (some user) "mine" 0 "" 1 20 (others ∷ []))) ≡ true)
jobs-visible_example = jobs-visible user "mine" 0 "" 1 20 (others ∷ [])
