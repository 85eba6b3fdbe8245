-- ===== src/Spider/Listing.antt =====
-- Job, Jobs and Health (app/core_data/internal/service/spider.go): the refresh jobs that a caller may see. Page, size
-- and ids that are not positive are 0 here.
pub mod Laws
use wust_algo_tracker.Prelude.{
  ℕ, zero, suc, ◌+◌, ◌-◌, ◌*◌, String, Bool, true, false, not, ◌&&◌, ◌||◌, ◌==◌, ltb, leb, Option,
  none, some, List, [], ◌∷◌, map, length, str_eq, if◌then◌else◌,
}
use wust_algo_tracker.Prelude.Sorting.{slice_stable}
use wust_algo_tracker.Table.{get, select, count_where}
use wust_algo_tracker.Text.{is_empty}
use wust_algo_tracker.Permission.{Ctx, JwtPayload, can_manage_core_ops}
use wust_algo_tracker.Spider.Jobs.{JobStatus, queued, running, failed, Job}
use wust_algo_tracker.Spider.Service.{job_key, can_view_user_detail}

-- spider.JobInfo, without the times
pub record JobInfo : Type 0 where
  pub job_id : ℕ
  pub user_id : ℕ
  pub requester_id : ℕ
  pub source : String
  pub status : JobStatus
  pub need_all : Bool
  pub current_platform : String
  pub total_platforms : ℕ
  pub finished_platforms : ℕ
  pub error : String

pub data Refused : Type 0 where
  bad_request unauthorized not_found not_allowed : Refused

pub data Reply (A : Type 0) : Type 0 where
  refused : Refused → Reply A
  replied : A → Reply A

-- jobToPb
unfoldable pub job_to_pb : Job → Bool → JobInfo
job_to_pb job can_view_error = record {
  job_id = job.id;
  user_id = job.user_id;
  requester_id = job.requester_id;
  source = job.source;
  status = job.status;
  need_all = job.need_all;
  current_platform = job.current_platform;
  total_platforms = job.total_platforms;
  finished_platforms = job.finished_platforms;
  error = if can_view_error then job.error else "";
}

unfoldable pub show_job : Ctx → Option Job → Reply JobInfo
unfolding can_view_user_detail job_to_pb
show_job ctx none = Reply.refused Refused.not_found
show_job ctx (some j) =
    if can_view_user_detail ctx j.user_id
    then Reply.replied (job_to_pb j true)
    else Reply.refused Refused.not_allowed

-- Job
unfoldable pub job : Ctx → ℕ → List Job → Reply JobInfo
unfolding show_job get
job ctx job_id table =
    if job_id == 0
    then Reply.refused Refused.bad_request
    else show_job ctx (get job_key job_id table)

-- The text of a status in the table.
abbrev pub status_text : JobStatus → String
status_text queued = "queued"
status_text running = "running"
status_text JobStatus.success = "success"
status_text failed = "failed"

abbrev pub has_status : String → Job → Bool
has_status status j = is_empty status || str_eq (status_text j.status) status

abbrev pub later : Job → Job → Bool
later j k = ltb k.updated_at j.updated_at

unfoldable pub skip : ℕ → List Job → List Job
skip zero jobs = jobs
skip (suc n) [] = []
skip (suc n) (j ∷ jobs) = skip n jobs

unfoldable pub limit : ℕ → List Job → List Job
limit zero jobs = []
limit (suc n) [] = []
limit (suc n) (j ∷ jobs) = j ∷ limit n jobs

abbrev pub page_of : ℕ → ℕ
page_of page = if page == 0 then 1 else page

abbrev pub page_size_of : ℕ → ℕ
page_size_of size = if (size == 0) || ltb 100 size then 20 else size

abbrev pub is_all : String → Bool
is_all scope = str_eq (if is_empty scope then "mine" else scope) "all"

-- The jobs that the query of Jobs is over.
unfoldable pub scoped : JwtPayload → String → ℕ → String → List Job → List Job
unfolding select
scoped current scope user_id status table =
    select
      (λ j.
        (if is_all scope
          then (user_id == 0) || (j.user_id == user_id)
          else (j.user_id == current.user_id) || (j.requester_id == current.user_id))
        && has_status status j)
      table

-- Jobs: the page, and the total.
unfoldable pub jobs : Ctx → String → ℕ → String → ℕ → ℕ → List Job → Reply (List JobInfo × ℕ)
unfolding scoped slice_stable skip limit job_to_pb can_view_user_detail can_manage_core_ops
jobs none scope user_id status page page_size table = Reply.refused Refused.unauthorized
jobs (some current) scope user_id status page page_size table =
    let rows = scoped current scope user_id status table in
    let size = page_size_of page_size in
    if is_all scope && not (can_manage_core_ops current.role_id)
    then Reply.refused Refused.not_allowed
    else Reply.replied (
      map (λ j. job_to_pb j (can_view_user_detail (some current) j.user_id))
          (limit size (skip ((page_of page - 1) * size) (slice_stable later rows))),
      length rows,
    )

-- HealthReply
pub record HealthReply : Type 0 where
  pub queued_jobs : ℕ
  pub running_jobs : ℕ
  pub failed_today : ℕ

abbrev is_in : JobStatus → Job → Bool
is_in status j = str_eq (status_text j.status) (status_text status)

-- Health
unfoldable pub health : ℕ → Ctx → List Job → Reply HealthReply
unfolding count_where
health now none table = Reply.refused Refused.unauthorized
health now (some current) table = Reply.replied record {
  queued_jobs = count_where (is_in queued) table;
  running_jobs = count_where (is_in running) table;
  failed_today = count_where (λ j. is_in failed j && leb (now - 86400) j.updated_at) table;
}
