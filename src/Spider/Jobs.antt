-- ===== src/Spider/Jobs.antt =====
-- Refresh jobs: Do, findActiveJob and expireStaleActiveJobs of app/core_data/task/spider.go, the
-- condition of scope.go, and the job updates of app/core_data/internal/biz/service/spider.go. Times
-- are seconds; whether RabbitMQ takes an event is a parameter.
pub mod Laws
use wust_algo_tracker.Prelude.{
  ℕ, suc, ◌+◌, String, Bool, true, false, not, ◌&&◌, ◌||◌, Option, none, some, List, [], ◌∷◌, ◌++◌,
  ◌==◌, ltb, str_eq, if◌then◌else◌,
}
use wust_algo_tracker.Table.{update_where}
use wust_algo_tracker.Text.{is_empty}

-- The values of `spider_refresh_jobs.status`.
pub data JobStatus : Type 0 where
  queued running success failed : JobStatus

-- model.SpiderRefreshJob, without the times of start and end.
pub record Job : Type 0 where
  pub id : ℕ
  pub user_id : ℕ
  pub requester_id : ℕ
  pub source : String
  pub status : JobStatus
  pub need_all : Bool
  pub current_platform : String
  pub total_platforms : ℕ
  pub finished_platforms : ℕ
  pub error : String
  pub updated_at : ℕ

-- event.SpiderEvent
pub record SpiderEvent : Type 0 where
  pub user_id : ℕ
  pub need_all : Bool
  pub job_id : ℕ
  pub platform : String

-- The table of jobs, and the queue.
pub record Queue : Type 0 where
  pub jobs : List Job
  pub next_job : ℕ
  pub events : List SpiderEvent

-- `status IN ('queued', 'running')`
abbrev pub is_active : JobStatus → Bool
is_active queued = true
is_active running = true
is_active _ = false

-- ActiveRefreshConflictCondition
unfoldable pub conflicts : String → Job → Bool
conflicts platform job =
    if is_empty platform
    then is_empty job.current_platform || not (job.total_platforms == 1)
    else str_eq job.current_platform platform
      || (is_empty job.current_platform || not (job.total_platforms == 1))

-- The active jobs of a user that keep a refresh from being queued.
unfoldable pub blocks : ℕ → String → Job → Bool
unfolding conflicts
blocks user_id platform job =
    job.user_id == user_id && (is_active job.status && conflicts platform job)

-- expireStaleActiveJobs
unfoldable pub expire_stale_active_jobs : ℕ → ℕ → String → List Job → List Job
unfolding blocks update_where
expire_stale_active_jobs now user_id platform jobs =
    update_where (λ j. blocks user_id platform j && ltb (j.updated_at + 7200) now)
      (λ j. record j { status = failed; error = "抓取任务长时间未更新，已自动标记为失败，可重新发起刷新"; updated_at = now })
      jobs

-- `Order("updated_at DESC").First(&job)`: the later of two jobs, the first one if they are level.
abbrev pub later_of : Job → Option Job → Job
later_of j none = j
later_of j (some k) = if ltb j.updated_at k.updated_at then k else j

unfoldable pub newest : (Job → Bool) → List Job → Option Job
newest p [] = none
newest p (j ∷ jobs) = let rest = newest p jobs in if p j then some (later_of j rest) else rest

-- What Do returns: a job that is already active, the new job, or the new job with an error.
pub data Done : Type 0 where
  already_active enqueued not_published : ℕ → Done

-- The update of Do after the event was not published.
unfoldable pub fail_job : ℕ → ℕ → String → List Job → List Job
unfolding update_where
fail_job now id text jobs =
    update_where (λ j. j.id == id)
      (λ j. record j { status = failed; error = text; updated_at = now }) jobs

-- The new row of Do.
abbrev pub new_job : ℕ → ℕ → ℕ → Bool → String → ℕ → String → Job
new_job now id user_id need_all source requester_id platform = record {
  id = id;
  user_id = user_id;
  requester_id = requester_id;
  source = source;
  status = queued;
  need_all = need_all;
  current_platform = platform;
  total_platforms = if is_empty platform then 0 else 1;
  finished_platforms = 0;
  error = "";
  updated_at = now;
}

-- Do, once findActiveJob has answered. `published` is the error of publish, if there is one.
unfoldable pub enqueue :
    ℕ → ℕ → Bool → String → ℕ → String → Option String → Option Job → Queue → Done × Queue
unfolding fail_job
enqueue now user_id need_all source requester_id platform published (some active) q =
    (already_active active.id, q)
enqueue now user_id need_all source requester_id platform none none q = (
  enqueued q.next_job,
  record q {
    jobs = q.jobs ++ new_job now q.next_job user_id need_all source requester_id platform ∷ [];
    next_job = suc q.next_job;
    events =
        q.events
        ++ record {
          user_id = user_id;
          need_all = need_all;
          job_id = q.next_job;
          platform = platform;
        }
          ∷ [];
  },
)
enqueue now user_id need_all source requester_id platform (some text) none q = (
  not_published q.next_job,
  record q {
    jobs =
        fail_job now q.next_job text
          (q.jobs ++ new_job now q.next_job user_id need_all source requester_id platform ∷ []);
    next_job = suc q.next_job;
  },
)

-- Do
unfoldable pub do_refresh :
    ℕ → ℕ → Bool → String → ℕ → String → Option String → Queue → Done × Queue
unfolding enqueue expire_stale_active_jobs newest blocks
do_refresh now user_id need_all source requester_id platform published q =
    let jobs = expire_stale_active_jobs now user_id platform q.jobs in
    enqueue now user_id need_all source requester_id platform published
      (newest (blocks user_id platform) jobs) (record q { jobs = jobs })

-- The updates of a running job in LoadData: startJob, setCurrentPlatform, finishPlatform and
-- finishJob. A job id of 0 is no job.
unfoldable pub update_job : ℕ → ℕ → (Job → Job) → Queue → Queue
unfolding update_where
update_job now id f q = if id == 0 then q else record q {
  jobs = update_where (λ j. j.id == id) (λ j. record (f j) { updated_at = now }) q.jobs;
}

unfoldable pub start_job : ℕ → ℕ → ℕ → Queue → Queue
unfolding update_job
start_job now id total_platforms = update_job now id (λ j. record j {
  status = running;
  total_platforms = total_platforms;
  finished_platforms = 0;
  error = "";
})

unfoldable pub set_current_platform : ℕ → ℕ → String → Queue → Queue
unfolding update_job
set_current_platform now id platform =
    update_job now id (λ j. record j { current_platform = platform })

unfoldable pub finish_platform : ℕ → ℕ → String → Queue → Queue
unfolding update_job
finish_platform now id platform =
    update_job now id
      (λ j. record j { current_platform = platform; finished_platforms = suc j.finished_platforms })

unfoldable pub finish_job : ℕ → ℕ → JobStatus → String → Queue → Queue
unfolding update_job
finish_job now id status text = update_job now id (λ j. record j { status = status; error = text })
