-- ===== src/Spider/Service.antt =====
-- Retry and RebuildAll of app/core_data/internal/service/spider.go, over the refresh jobs. The
-- operation log of the core-data service is left out.
pub mod Laws
use wust_algo_tracker.Prelude.{
  ℕ, suc, ◌+◌, String, Bool, true, false, not, ◌&&◌, Option, none, some, List, [], ◌∷◌, ◌++◌, ◌==◌,
  if◌then◌else◌, length, any, ltb,
}
use wust_algo_tracker.Prelude.Sorting.{slice_stable}
use wust_algo_tracker.Contest.Users.{mem}
use wust_algo_tracker.Contest.Official.{Platform}
use wust_algo_tracker.Table.{get}
use wust_algo_tracker.Permission.{Ctx, can_manage_core_ops, can_operate_user_detail}
use wust_algo_tracker.Spider.Jobs.{
  JobStatus, failed, Job, Queue, Done, already_active, enqueued, not_published, do_refresh,
}

-- The errors of the handlers.
pub data Refusal : Type 0 where
  bad_job_id unauthorized job_missing not_failed forbidden internal_error : Refusal

-- What Retry replies: the new job, a job that is already active, or an error.
pub data RetryReply : Type 0 where
  retried busy : ℕ → RetryReply
  refused : Refusal → RetryReply

abbrev pub job_key : Job → ℕ
job_key j = j.id

abbrev pub is_failed : JobStatus → Bool
is_failed failed = true
is_failed _ = false

-- canViewUserDetail
unfoldable pub can_view_user_detail : Ctx → ℕ → Bool
unfolding can_operate_user_detail
can_view_user_detail none user_id = false
can_view_user_detail (some current) user_id =
    can_operate_user_detail current.user_id current.role_id user_id

-- The reply for what Do returned.
unfoldable pub reply_of : Done → RetryReply
reply_of (already_active id) = busy id
reply_of (enqueued id) = retried id
reply_of (not_published id) = refused internal_error

-- The platform that Retry asks for.
abbrev pub retry_platform : Job → String
retry_platform j = if j.total_platforms == 1 then j.current_platform else ""

-- Retry, once the caller is known and the job has been looked up.
unfoldable pub retry_job : ℕ → Ctx → ℕ → Option String → Option Job → Queue → RetryReply × Queue
unfolding can_view_user_detail reply_of do_refresh
retry_job now ctx requester_id published none q = (refused job_missing, q)
retry_job now ctx requester_id published (some j) q =
    let r =
      do_refresh now j.user_id j.need_all "retry" requester_id (retry_platform j) published q in
    if not (is_failed j.status)
    then (refused not_failed, q)
    else if not (can_view_user_detail ctx j.user_id)
    then (refused forbidden, q)
    else (reply_of r.0, r.1)

-- Retry
unfoldable pub retry : ℕ → Ctx → ℕ → Option String → Queue → RetryReply × Queue
unfolding retry_job get
retry now none job_id published q = (refused (if job_id == 0 then bad_job_id else unauthorized), q)
retry now (some current) job_id published q =
    let r = retry_job now (some current) current.user_id published (get job_key job_id q.jobs) q in
    if job_id == 0 then (refused bad_job_id, q) else r

-- RebuildAllReply
pub record RebuildAllReply : Type 0 where
  pub total_users : ℕ
  pub queued_jobs : ℕ
  pub skipped : ℕ
  pub job_ids : List ℕ

-- One more user in the reply of RebuildAll; `none` where Do returned another error.
unfoldable pub count_job : Done → RebuildAllReply → Option RebuildAllReply
count_job (already_active id) r = some (record r {
  skipped = suc r.skipped;
  job_ids = if id == 0 then r.job_ids else r.job_ids ++ id ∷ [];
})
count_job (enqueued id) r =
    some (record r { queued_jobs = suc r.queued_jobs; job_ids = r.job_ids ++ id ∷ [] })
count_job (not_published id) r = none

module _ (now requester_id : ℕ) (published : ℕ → Option String) where
  -- The loop of RebuildAll, from a reply on: it ends at the first error, and `none` is an error.
  unfoldable pub rebuild_users :
      List ℕ → Option RebuildAllReply → Queue → Option RebuildAllReply × Queue
  unfolding count_job do_refresh
  rebuild_users user_ids none q = (none, q)
  rebuild_users [] (some r) q = (some r, q)
  rebuild_users (user_id ∷ user_ids) (some r) q =
      let d = do_refresh now user_id true "admin_rebuild" requester_id "" (published user_id) q in
      rebuild_users user_ids (count_job d.0 r) d.1

-- `Distinct("user_id")`, in some order
unfoldable pub distinct : List Platform → List ℕ
unfolding any
distinct [] = []
distinct (p ∷ platforms) =
    let rest = distinct platforms in if mem p.user_id rest then rest else p.user_id ∷ rest

-- The query of RebuildAll: `Distinct("user_id").Order("user_id ASC")`
unfoldable pub bound_users : List Platform → List ℕ
unfolding distinct slice_stable
bound_users platforms = slice_stable ltb (distinct platforms)

-- RebuildAll
unfoldable pub rebuild_all :
    ℕ → Ctx → (ℕ → Option String) → List Platform → Queue → Option RebuildAllReply × Queue
unfolding rebuild_users can_manage_core_ops bound_users
rebuild_all now none published platforms q = (none, q)
rebuild_all now (some current) published platforms q =
    let user_ids = bound_users platforms in
    let start =
      some (record { total_users = length user_ids; queued_jobs = 0; skipped = 0; job_ids = [] }) in
    let r = rebuild_users now current.user_id published user_ids start q in
    if can_manage_core_ops current.role_id then r else (none, q)
