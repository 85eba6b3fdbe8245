-- ===== src/Spider/Service/Laws.antt =====
-- Whom RebuildAll counts.
use wust_algo_tracker.Prelude.{
  ℕ, suc, ◌+◌, String, ◌≡◌, refl, true, Option, none, some, List, [], ◌∷◌, arith, ◌==◌,
  if◌then◌else◌, length, ◌⊎◌, inl, inr, any, count_where, ltb, ==_iff, ◌∙◌,
}
use wust_algo_tracker.Prelude.Sorting.{count-slice_stable}
use wust_algo_tracker.Contest.Users.{mem}
use wust_algo_tracker.Contest.Official.{Platform}
use wust_algo_tracker.Permission.{Ctx}
use wust_algo_tracker.Spider.Jobs.{Queue, Done, already_active, enqueued, not_published, do_refresh}
use wust_algo_tracker.Spider.Service.{
  RebuildAllReply, count_job, rebuild_users, rebuild_all, distinct, bound_users,
}

-- The users that a reply counts.
abbrev handled : Option RebuildAllReply → ℕ
handled none = 0
handled (some r) = r.queued_jobs + r.skipped

handled-count_job :
    (d : Done) (r : RebuildAllReply)
    → (count_job d r ≡ none) ⊎ (handled (count_job d r) ≡ suc (handled (some r)))
unfolding count_job
handled-count_job (already_active id) r = inr (omega arith)
handled-count_job (enqueued id) r = inr (omega arith)
handled-count_job (not_published id) r = inl refl

module _ (now requester_id : ℕ) (published : ℕ → Option String) where
  none-rebuild_users :
      (user_ids : List ℕ) (o : Option RebuildAllReply) (q : Queue)
      → o ≡ none
      → (rebuild_users now requester_id published user_ids o q).0 ≡ none
  unfolding rebuild_users
  none-rebuild_users user_ids none q e = refl
  none-rebuild_users user_ids (some r) q e = absurd (ground arith)

  handled-rebuild_users :
      (user_ids : List ℕ) (o : Option RebuildAllReply) (q : Queue) (r : RebuildAllReply)
      → (rebuild_users now requester_id published user_ids o q).0 ≡ some r
      → handled (some r) ≡ length user_ids + handled o
  unfolding rebuild_users
  handled-rebuild_users user_ids none q r e = absurd (ground arith)
  handled-rebuild_users [] (some t) q r e = ground arith
  handled-rebuild_users (user_id ∷ user_ids) (some t) q r e =
      let d = do_refresh now user_id true "admin_rebuild" requester_id "" (published user_id) q in
      elim (handled-count_job d.0 t) [
        | inl n ↦ absurd (ground (arith, none-rebuild_users user_ids (count_job d.0 t) d.1 n))
        | inr h ↦ omega (arith, h, handled-rebuild_users user_ids (count_job d.0 t) d.1 r e)
      ]

mem-distinct :
    (id : ℕ) (platforms : List Platform)
    → mem id (distinct platforms) ≡ any (λ p. id == p.user_id) platforms
unfolding distinct any
mem-distinct id [] = refl
mem-distinct id (p ∷ platforms) =
    ground (arith, mem-distinct id platforms, mem-distinct p.user_id platforms, ==_iff id p.user_id)

count-distinct :
    (id : ℕ) (platforms : List Platform)
    → count_where (λ i. id == i) (distinct platforms)
      ≡ (if any (λ p. id == p.user_id) platforms then 1 else 0)
unfolding distinct any count_where
count-distinct id [] = refl
count-distinct id (p ∷ platforms) = ground (
  arith,
  count-distinct id platforms,
  mem-distinct id platforms,
  mem-distinct p.user_id platforms,
  ==_iff id p.user_id,
)

-- The query finds every user who has bound a platform once, and nobody else.
count-bound_users :
    (id : ℕ) (platforms : List Platform)
    → count_where (λ i. id == i) (bound_users platforms)
      ≡ (if any (λ p. id == p.user_id) platforms then 1 else 0)
unfolding bound_users
count-bound_users id platforms =
    count-slice_stable ltb (λ i. id == i) (distinct platforms) ∙ count-distinct id platforms

-- Where RebuildAll returns no error, its jobs queued and users skipped because a job was active are as
-- many as the users in the order of their ids, among whom every user who has bound a platform is
-- once, and nobody else.
pub rebuild_all-counts :
    (now : ℕ) (ctx : Ctx) (published : ℕ → Option String) (platforms : List Platform) (q : Queue)
    (r : RebuildAllReply)
    → (rebuild_all now ctx published platforms q).0 ≡ some r
    → (r.queued_jobs + r.skipped ≡ length (bound_users platforms))
      × ((id : ℕ)
          → count_where (λ i. id == i) (bound_users platforms)
            ≡ (if any (λ p. id == p.user_id) platforms then 1 else 0))
unfolding rebuild_all
rebuild_all-counts now none published platforms q r e = absurd (ground arith)
rebuild_all-counts now (some current) published platforms q r e =
    let users = bound_users platforms in
    (
      ground (
        arith,
        handled-rebuild_users now current.user_id published users
            (some
              (record { total_users = length users; queued_jobs = 0; skipped = 0; job_ids = [] }))
            q r,
      ),
      λ id. count-bound_users id platforms,
    )
