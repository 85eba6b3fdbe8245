-- ===== src/Spider/Jobs/Laws.antt =====
-- Which refreshes are queued, and which are refused because another is active.
use wust_algo_tracker.Prelude.{
  ℕ, suc, ◌+◌, ◌≤◌, String, ◌≡◌, ◌≢◌, refl, ap, ◌∙◌, Bool, true, false, Option, none, some, List,
  [], ◌∷◌, ◌++◌, arith, ◌==◌, str_eq_iff, Option-cases, inl, inr,
}
use wust_algo_tracker.Table.{update_where}
use wust_algo_tracker.Text.{is_empty}
use wust_algo_tracker.Spider.Jobs.{
  running, Job, Queue, conflicts, blocks, expire_stale_active_jobs, newest, already_active,
  enqueued, new_job, enqueue, do_refresh, update_job, start_job, set_current_platform,
}

newest-insert :
    (p : Job → Bool) (j : Job) (jobs : List Job)
    → newest p jobs ≡ none
    → p j ≡ true
    → newest p (jobs ++ j ∷ []) ≡ some j
unfolding newest
newest-insert p j [] n h = ground arith
newest-insert p j (k ∷ jobs) n h = ground (arith, newest-insert p j jobs)

-- A new job blocks the same refresh.
new_job-blocks :
    (now id user_id : ℕ) (need_all : Bool) (source : String) (requester_id : ℕ) (platform : String)
    → blocks user_id platform (new_job now id user_id need_all source requester_id platform) ≡ true
unfolding blocks conflicts
new_job-blocks now id user_id need_all source requester_id platform =
    ground (arith, (str_eq_iff platform platform).1 refl)

expire-none :
    (now user_id : ℕ) (platform : String) (jobs : List Job)
    → newest (blocks user_id platform) jobs ≡ none
    → expire_stale_active_jobs now user_id platform jobs ≡ jobs
unfolding expire_stale_active_jobs newest update_where
expire-none now user_id platform [] n = refl
expire-none now user_id platform (j ∷ jobs) n =
    ground (arith, expire-none now user_id platform jobs)

expire-append :
    (now user_id : ℕ) (platform : String) (jobs : List Job) (j : Job)
    → newest (blocks user_id platform) jobs ≡ none
    → now ≤ j.updated_at + 7200
    → expire_stale_active_jobs now user_id platform (jobs ++ j ∷ []) ≡ jobs ++ j ∷ []
unfolding expire_stale_active_jobs newest update_where
expire-append now user_id platform [] j n l = ground arith
expire-append now user_id platform (k ∷ jobs) j n l =
    ground (arith, expire-append now user_id platform jobs j)

-- A refresh that was queued is not queued again by the next request, if that comes within two hours
-- and before a worker has taken the job: the request of the same user and platform, whoever makes it,
-- returns the job that is active and leaves the jobs and the queue as they are.
pub do_refresh-twice :
    (now now' user_id : ℕ) (need_all need_all' : Bool) (source source' : String)
    (requester requester' : ℕ) (platform : String) (published : Option String) (q : Queue)
    → now' ≤ now + 7200
    → (id : ℕ) → (do_refresh now user_id need_all source requester platform none q).0 ≡ enqueued id
    → do_refresh now' user_id need_all' source' requester' platform published
        (do_refresh now user_id need_all source requester platform none q).1
      ≡ (already_active id, (do_refresh now user_id need_all source requester platform none q).1)
unfolding do_refresh enqueue
do_refresh-twice now now' user_id need_all need_all' source source' requester requester' platform
      published q l id e =
    let jobs = expire_stale_active_jobs now user_id platform q.jobs in
    let j = new_job now q.next_job user_id need_all source requester platform in
    elim (Option-cases (newest (blocks user_id platform) jobs)) [
      | inl n ↦ rw n (
          rw (expire-append now' user_id platform jobs j n l) (
            rw
              (newest-insert (blocks user_id platform) j jobs n
                (new_job-blocks now q.next_job user_id need_all source requester platform))
              (ground arith)))
      | inr (k, s) ↦ absurd (ground arith)
    ]

update-absent :
    (k : ℕ) (f : Job → Job) (jobs : List Job) (j : Job)
    → newest (λ i. i.id == k) jobs ≡ none
    → j.id ≡ k
    → update_where (λ i. i.id == k) f (jobs ++ j ∷ []) ≡ jobs ++ f j ∷ []
unfolding newest update_where
update-absent k f [] j n h = ground arith
update-absent k f (i ∷ jobs) j n h = ground (arith, update-absent k f jobs j)

newest-append_none :
    (p : Job → Bool) (j : Job) (jobs : List Job)
    → newest p jobs ≡ none
    → p j ≡ false
    → newest p (jobs ++ j ∷ []) ≡ none
unfolding newest
newest-append_none p j [] n h = ground arith
newest-append_none p j (k ∷ jobs) n h = ground (arith, newest-append_none p j jobs)

-- A job of one platform that is running.
running_one : ℕ → String → Job → Job
running_one t platform j = record j {
  status = running;
  total_platforms = 1;
  finished_platforms = 0;
  error = "";
  current_platform = platform;
  updated_at = t;
}

not_blocking :
    (t user_id : ℕ) (platform : String) (j : Job)
    → is_empty platform ≡ false
    → blocks user_id "" (running_one t platform j) ≡ false
unfolding blocks conflicts running_one
not_blocking t user_id platform j e = ground arith

one_running :
    (t k : ℕ) (platform : String) (jobs : List Job) (j : Job) (q : Queue)
    → k ≢ 0
    → newest (λ i. i.id == k) jobs ≡ none
    → j.id ≡ k
    → q.jobs ≡ jobs ++ j ∷ []
    → (set_current_platform t k platform (start_job t k 1 q)).jobs
      ≡ jobs ++ running_one t platform j ∷ []
unfolding set_current_platform start_job update_job running_one
one_running t k platform jobs j q nz n same e = ground (
  arith,
  update-absent k
      (λ i. record i {
        status = running;
        total_platforms = 1;
        finished_platforms = 0;
        error = "";
        updated_at = t;
      })
      jobs j n same,
  update-absent k (λ i. record i { current_platform = platform; updated_at = t }) jobs
      (record j {
        status = running;
        total_platforms = 1;
        finished_platforms = 0;
        error = "";
        updated_at = t;
      })
      n same,
)

enqueues :
    (now user_id : ℕ) (need_all : Bool) (source : String) (requester : ℕ) (platform : String)
    (q : Queue)
    → newest (blocks user_id platform) q.jobs ≡ none
    → (do_refresh now user_id need_all source requester platform none q).0 ≡ enqueued q.next_job
      × ((do_refresh now user_id need_all source requester platform none q).1.jobs
          ≡ q.jobs ++ new_job now q.next_job user_id need_all source requester platform ∷ [])
      × ((do_refresh now user_id need_all source requester platform none q).1.next_job
          ≡ suc q.next_job)
unfolding do_refresh enqueue
enqueues now user_id need_all source requester platform q n =
    rw (expire-none now user_id platform q.jobs n) (rw n (refl, refl, refl))

next-one :
    (t k : ℕ) (platform : String) (q : Queue)
    → (set_current_platform t k platform (start_job t k 1 q)).next_job ≡ q.next_job
unfolding set_current_platform start_job update_job
next-one t k platform q = ground arith

-- A refresh of all platforms of a user who has bound one does not keep a second one from being
-- queued: once the first runs, its job is taken for a refresh of that one platform alone.
pub do_refresh-overlaps :
    (now now' t user_id : ℕ) (need_all need_all' : Bool) (source source' : String)
    (requester requester' : ℕ) (platform : String) (q : Queue)
    → newest (blocks user_id "") q.jobs ≡ none
    → newest (λ i. i.id == q.next_job) q.jobs ≡ none
    → q.next_job ≢ 0
    → is_empty platform ≡ false
    → (do_refresh now user_id need_all source requester "" none q).0 ≡ enqueued q.next_job
      × ((do_refresh now' user_id need_all' source' requester' "" none (
            set_current_platform t q.next_job platform (
              start_job t q.next_job 1
                (do_refresh now user_id need_all source requester "" none q).1))).0
          ≡ enqueued (suc q.next_job))
do_refresh-overlaps now now' t user_id need_all need_all' source source' requester requester'
      platform q n absent nz e =
    let first = enqueues now user_id need_all source requester "" q n in
    let q1 = (do_refresh now user_id need_all source requester "" none q).1 in
    let j = new_job now q.next_job user_id need_all source requester "" in
    let running_jobs = one_running t q.next_job platform q.jobs j q1 nz absent refl first.1 in
    let free =
      newest-append_none (blocks user_id "") (running_one t platform j) q.jobs n
        (not_blocking t user_id platform j e) in
    let second =
      enqueues now' user_id need_all' source' requester' ""
        (set_current_platform t q.next_job platform (start_job t q.next_job 1 q1))
        (rw running_jobs free) in
    (first.0, second.0 ∙ ap enqueued (next-one t q.next_job platform q1 ∙ first.2))
