-- ===== src/Spider/Listing/Laws.antt =====
-- Who sees which jobs and errors.
use wust_algo_tracker.Prelude.{
  ℕ, zero, suc, ◌-◌, ◌*◌, ◌≤◌, ◌≡◌, refl, ◌∙◌, String, Bool, true, false, not, ◌&&◌, ◌||◌, ◌==◌,
  List, [], ◌∷◌, map, all, length, arith, Bool-cases, inl, inr, some,
}
use wust_algo_tracker.Prelude.Sorting.{slice_stable, all-slice_stable}
use wust_algo_tracker.Table.{select}
use wust_algo_tracker.Text.{is_empty}
use wust_algo_tracker.Permission.{JwtPayload, can_manage_core_ops, can_operate_user_detail}
use wust_algo_tracker.Spider.Jobs.{Job}
use wust_algo_tracker.Spider.Service.{can_view_user_detail}
use wust_algo_tracker.Spider.Listing.{
  JobInfo, Reply, job_to_pb, later, skip, limit, page_of, page_size_of, is_all, scoped, jobs,
}

-- The caller manages the service, or the job is theirs, or they have asked for it.
abbrev pub may_list : JwtPayload → JobInfo → Bool
may_list current j =
    can_manage_core_ops current.role_id
    || ((j.user_id == current.user_id) || (j.requester_id == current.user_id))

-- The error is shown to those only who manage the service or whose job it is.
abbrev pub hides_error : JwtPayload → JobInfo → Bool
hides_error current j =
    is_empty j.error || (can_manage_core_ops current.role_id || (j.user_id == current.user_id))

abbrev pub shown : JwtPayload → Job → JobInfo
shown current j = job_to_pb j (can_view_user_detail (some current) j.user_id)

abbrev pub is_right : JwtPayload → JobInfo → Bool
is_right current j = may_list current j && hides_error current j

abbrev pub is_right_job : JwtPayload → Job → Bool
is_right_job current j = is_right current (shown current j)

all-map :
    (current : JwtPayload) (js : List Job)
    → all (is_right_job current) js ≡ true
    → all (is_right current) (map (shown current) js) ≡ true
unfolding all
all-map current [] h = refl
all-map current (j ∷ js) h = ground (arith, all-map current js)

module _ (p : Job → Bool) where
  all-skip : (n : ℕ) (js : List Job) → all p js ≡ true → all p (skip n js) ≡ true
  unfolding all skip
  all-skip zero js h = h
  all-skip (suc n) [] h = refl
  all-skip (suc n) (j ∷ js) h = all-skip n js (ground (arith))

  all-limit : (n : ℕ) (js : List Job) → all p js ≡ true → all p (limit n js) ≡ true
  unfolding all limit
  all-limit zero js h = refl
  all-limit (suc n) [] h = refl
  all-limit (suc n) (j ∷ js) h = ground (arith, all-limit n js)

  all-select :
      (q : Job → Bool) (js : List Job)
      → ((j : Job) → q j ≡ true → p j ≡ true)
      → all p (select q js) ≡ true
  unfolding all select
  all-select q [] h = refl
  all-select q (j ∷ js) h = ground (arith, h j, all-select q js h)

right-job :
    (current : JwtPayload) (j : Job)
    → (can_manage_core_ops current.role_id
        || ((j.user_id == current.user_id) || (j.requester_id == current.user_id)))
      ≡ true
    → is_right_job current j ≡ true
unfolding job_to_pb can_view_user_detail can_operate_user_detail
right-job current j h = elim (Bool-cases (can_view_user_detail (some current) j.user_id)) [
  | inl e ↦ rw e (ground (arith, h, e))
  | inr e ↦ rw e (ground (arith, h, e))
]

length-limit : (n : ℕ) (js : List Job) → length (limit n js) ≤ n
unfolding limit
length-limit zero js = omega arith
length-limit (suc n) [] = omega arith
length-limit (suc n) (j ∷ js) = omega (arith, length-limit n js)

length-map : (current : JwtPayload) (js : List Job) → length (map (shown current) js) ≡ length js
length-map current [] = refl
length-map current (j ∷ js) = omega (arith, length-map current js)

-- The jobs of a reply, none where it is an error.
abbrev pub listed : Reply (List JobInfo × ℕ) → List JobInfo
listed (Reply.refused e) = []
listed (Reply.replied page) = page.0

page-right :
    (current : JwtPayload) (scope : String) (user_id : ℕ) (status : String) (n : ℕ) (size : ℕ)
    (table : List Job)
    → (is_all scope && not (can_manage_core_ops current.role_id)) ≡ false
    → all
        (is_right_job current)
        (limit size (skip n (slice_stable later (scoped current scope user_id status table))))
      ≡ true
unfolding scoped
page-right current scope user_id status n size table e =
    let p = is_right_job current in
    all-limit p size _ (
      all-skip p n _ (
        all-slice_stable later p (scoped current scope user_id status table)
        ∙ all-select p _ table (λ j k. right-job current j (ground (arith, e, k)))))

-- A page of Jobs has at most 100 jobs; each of them is the caller's, or one they asked for, unless
-- they manage the service; and none shows the error of another user's job to a caller who does not.
pub jobs-visible :
    (current : JwtPayload) (scope : String) (user_id : ℕ) (status : String) (page page_size : ℕ)
    (table : List Job)
    → (length (listed (jobs (some current) scope user_id status page page_size table)) ≤ 100)
      × (all
            (is_right current)
            (listed (jobs (some current) scope user_id status page page_size table))
          ≡ true)
unfolding jobs all
jobs-visible current scope user_id status page page_size table =
    let size = page_size_of page_size in
    let n = (page_of page - 1) * size in
    let js = limit size (skip n (slice_stable later (scoped current scope user_id status table))) in
    elim (Bool-cases (is_all scope && not (can_manage_core_ops current.role_id))) [
      | inl e ↦ rw e (omega arith, refl)
      | inr e ↦ rw e (
        ground (
          arith,
          length-map current js,
          length-limit size
              (skip n (slice_stable later (scoped current scope user_id status table))),
        ),
        all-map current js (page-right current scope user_id status n size table e),
      )
    ]
