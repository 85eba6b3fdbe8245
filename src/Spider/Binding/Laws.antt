-- ===== src/Spider/Binding/Laws.antt =====
-- What SetSpider and Update change, and how often they do.
use Prim.Native.String.{◌++◌ as str_append}
use mathlib.Core.Path.{subst}
use wust_algo_tracker.Prelude.{
  ℕ, ◌+◌, ◌≤◌, ◌<◌, ◌≡◌, refl, ap, sym, ◌∙◌, String, Bool, true, false, ◌&&◌, ◌==◌, Option, none,
  List, [], ◌∷◌, ◌++◌, arith, str_eq, str_eq_iff, ==_iff, if◌then◌else◌,
}
use wust_algo_tracker.Table.{find, delete_where, select}
use wust_algo_tracker.Text.{trim_space}
use wust_algo_tracker.Text.Format.{decimal}
use wust_algo_tracker.Text.Unicode.{Unicode}
use wust_algo_tracker.Permission.{Ctx}
use wust_algo_tracker.Spider.Store.{is_of}
use wust_algo_tracker.Spider.Sync.{
  manual_refresh_window, is_codeforces_platform, mark_platform_running,
}
use wust_algo_tracker.Spider.Sync.Laws.{started-mark_platform_running}
use wust_algo_tracker.Spider.Binding.{
  RateLimits, Service, UpdateReply, SetReply, is_binding_of, limiter_key, update_reply,
  get_limiter_by_key, allow_key, requested, update_platform, update, Failures, cleared, bind,
  set_spider,
}
use wust_algo_tracker.Contest.Official.{Platform}

-- What a deletion leaves of the rows that meet another condition.
module _ {R : Type 0} where
  select-delete_own : (p : R → Bool) (rows : List R) → select p (delete_where p rows) ≡ []
  unfolding select delete_where
  select-delete_own p [] = refl
  select-delete_own p (r ∷ rows) = ground (arith, select-delete_own p rows)

  select-delete_other :
      (p q : R → Bool) (rows : List R)
      → ((r : R) → q r ≡ true → p r ≡ false)
      → select q (delete_where p rows) ≡ select q rows
  unfolding select delete_where
  select-delete_other p q [] h = refl
  select-delete_other p q (r ∷ rows) h = ground (arith, h r, select-delete_other p q rows h)

  select-snoc :
      (p : R → Bool) (rows : List R) (r : R)
      → select p (rows ++ r ∷ []) ≡ select p rows ++ (if p r then r ∷ [] else [])
  unfolding select
  select-snoc p [] r = ground arith
  select-snoc p (s ∷ rows) r = ground (arith, select-snoc p rows r)

abbrev pub is_done : SetReply → Bool
is_done reply = elim reply [ SetReply.set_done ↦ true | _ ↦ false ]

append-nil : {R : Type 0} (rows : List R) → rows ++ [] ≡ rows
append-nil [] = refl
append-nil (r ∷ rows) = ap (◌∷◌ r) (append-nil rows)

-- A row of another user or platform is not one of the user's there.
apart :
    (id other user_id : ℕ) (name site platform : String)
    → ((other == user_id) && str_eq site platform) ≡ false
    → ((id == other) && str_eq name site) ≡ true
    → ((id == user_id) && str_eq name platform) ≡ false
apart id other user_id name site platform h k = ground (
  arith,
  h,
  k,
  ==_iff id other,
  ==_iff id user_id,
  ==_iff other user_id,
  str_eq_iff name site,
  str_eq_iff name platform,
  str_eq_iff site platform,
)

-- The user has one binding of the platform, with that name, and no submissions there; those
-- of another user or platform are as they were.
pub record IsBound {L : Type 0} (user_id : ℕ) (platform username : String) (s t : Service L)
    (other : ℕ) (site : String) : Type 0 where
  pub own_binding :
      select (is_binding_of user_id platform) t.platforms
      ≡ record { user_id = user_id; platform = platform; username = username } ∷ []
  pub own_logs : select (is_of user_id platform) t.submit_logs ≡ []
  pub other_bindings :
      select (is_binding_of other site) t.platforms ≡ select (is_binding_of other site) s.platforms
  pub other_logs : select (is_of other site) t.submit_logs ≡ select (is_of other site) s.submit_logs

abbrev pub is_failed : SetReply → Bool
is_failed reply = elim reply [ SetReply.set_failed ↦ true | _ ↦ false ]

-- The handler stopped before its writes.
abbrev pub is_refused : SetReply → Bool
is_refused reply = elim reply [ SetReply.set_done ↦ false | SetReply.set_failed ↦ false | _ ↦ true ]

abbrev pub is_lately : UpdateReply → Bool
is_lately reply = elim reply [ UpdateReply.refreshed_lately ↦ true | _ ↦ false ]

module _ {L : Type 0} (limits : RateLimits L) (u : Unicode) (published : Option String) where
  binds :
      (fails : Failures) (now : ℕ) (ctx : Ctx) (user_id : ℕ) (platform username : String)
      (existing : Option Platform) (s : Service L) (other : ℕ) (site : String)
      → fails.delete_platform ≡ false
      → fails.delete_submit_log ≡ false
      → ((other == user_id) && str_eq site platform) ≡ false
      → IsBound user_id platform username s
          (bind limits u published now ctx user_id platform username
            (cleared limits u published fails user_id platform username existing s))
          other
          site
  unfolding bind cleared
  binds fails now ctx user_id platform username existing s other site fp fl h =
      let own : Platform = record { user_id = user_id; platform = platform; username = username } in
      let mine = is_binding_of user_id platform in
      let theirs = is_binding_of other site in
      let left = delete_where mine s.platforms in
      rw (fp, fl)
        (record {
          own_binding =
              select-snoc mine left own
              ∙ ground (
                arith,
                select-delete_own mine s.platforms,
                ==_iff user_id user_id,
                str_eq_iff platform platform,
              );
          own_logs = select-delete_own (is_of user_id platform) s.submit_logs;
          other_bindings =
              select-snoc theirs left own
              ∙ ground (
                arith,
                append-nil (select theirs left),
                select-delete_other mine theirs s.platforms
                    (λ r k. apart r.user_id other user_id r.platform site platform h k),
                apart user_id other user_id platform site platform h,
                ==_iff user_id user_id,
                str_eq_iff platform platform,
              );
          other_logs =
              select-delete_other (is_of user_id platform) (is_of other site) s.submit_logs
                (λ r k. apart r.user_id other user_id r.platform site platform h k);
        })

  -- The limiters are no part of a binding.
  binds-limited :
      (fails : Failures) (now : ℕ) (ctx : Ctx) (user_id : ℕ) (platform username : String)
      (existing : Option Platform) (s : Service L) (limiters : List (String × L)) (other : ℕ)
      (site : String)
      → fails.delete_platform ≡ false
      → fails.delete_submit_log ≡ false
      → ((other == user_id) && str_eq site platform) ≡ false
      → IsBound user_id platform username s
          (bind limits u published now ctx user_id platform username (
            cleared limits u published fails user_id platform username existing
              (record s { limiters = limiters })))
          other
          site
  binds-limited fails now ctx user_id platform username existing s limiters other site fp fl h =
      let b =
        binds fails now ctx user_id platform username existing (record s { limiters = limiters })
          other site fp fl h in
      record {
        own_binding = b.own_binding;
        own_logs = b.own_logs;
        other_bindings = b.other_bindings;
        other_logs = b.other_logs;
      }

  set_spider-done :
      (fails : Failures) (now : ℕ) (ctx : Ctx) (user_id : ℕ) (platform username : String)
      (s : Service L)
      → is_done (set_spider limits u published fails now ctx user_id platform username s).0 ≡ true
      → (set_spider limits u published fails now ctx user_id platform username s).1
        ≡ bind limits u published now ctx user_id (trim_space platform) (trim_space username) (
            cleared limits u published fails user_id
              (trim_space platform)
              (trim_space username)
              (if fails.first_platform
                then none
                else find (is_binding_of user_id (trim_space platform)) s.platforms)
              (record s {
                limiters =
                    (allow_key limits now (str_append "user:" (decimal user_id)) 30 s.limiters).1;
              }))
  unfolding set_spider
  set_spider-done fails now ctx user_id platform username s d = ground (arith, d)

  -- A binding that is done, and whose deletions of the old binding and its submissions do not
  -- fail, replaces the user's account on the platform, whose submissions go, and leaves the
  -- bindings and submissions of another user or platform as they were.
  pub set_spider-IsBound :
      (fails : Failures) (now : ℕ) (ctx : Ctx) (user_id : ℕ) (platform username : String)
      (s : Service L) (other : ℕ) (site : String)
      → fails.delete_platform ≡ false
      → fails.delete_submit_log ≡ false
      → is_done (set_spider limits u published fails now ctx user_id platform username s).0 ≡ true
      → ((other == user_id) && str_eq site (trim_space platform)) ≡ false
      → IsBound user_id
          (trim_space platform)
          (trim_space username)
          s
          (set_spider limits u published fails now ctx user_id platform username s).1
          other
          site
  unfolding set_spider
  set_spider-IsBound fails now ctx user_id platform username s other site fp fl d h =
      subst (λ t. IsBound user_id (trim_space platform) (trim_space username) s t other site)
        (sym (set_spider-done fails now ctx user_id platform username s d))
        (binds-limited fails now ctx user_id (trim_space platform) (trim_space username) _ s _ other
          site fp fl h)

  -- Where SetSpider answers that it has failed, and its deletions of the old binding and its
  -- submissions do not fail, the user has no binding of the platform and no submissions there, and
  -- no refresh is queued.
  pub set_spider-lost :
      (fails : Failures) (now : ℕ) (ctx : Ctx) (user_id : ℕ) (platform username : String)
      (s : Service L)
      → fails.delete_platform ≡ false
      → fails.delete_submit_log ≡ false
      → is_failed (set_spider limits u published fails now ctx user_id platform username s).0 ≡ true
      → let t = (set_spider limits u published fails now ctx user_id platform username s).1 in
        (select (is_binding_of user_id (trim_space platform)) t.platforms ≡ [])
        × (select (is_of user_id (trim_space platform)) t.submit_logs ≡ [])
        × (t.queue ≡ s.queue)
  unfolding set_spider cleared
  set_spider-lost fails now ctx user_id platform username s fp fl d = (
    ground
        (arith, d, fp, select-delete_own (is_binding_of user_id (trim_space platform)) s.platforms),
    ground (arith, d, fl, select-delete_own (is_of user_id (trim_space platform)) s.submit_logs),
    ground (arith, d),
  )

  -- One that is refused changes no table.
  pub set_spider-unchanged :
      (fails : Failures) (now : ℕ) (ctx : Ctx) (user_id : ℕ) (platform username : String)
      (s : Service L)
      → is_refused (set_spider limits u published fails now ctx user_id platform username s).0
        ≡ true
      → record (set_spider limits u published fails now ctx user_id platform username s).1 {
        limiters = s.limiters;
      }
        ≡ s
  unfolding set_spider
  set_spider-unchanged fails now ctx user_id platform username s d = ground (arith, d)

  -- Once the worker has marked a refresh of a Codeforces account as started, Update answers for 30
  -- minutes that it was refreshed lately, and changes nothing.
  pub update-refreshed_lately :
      (t now : ℕ) (ctx : Ctx) (user_id : ℕ) (plat : Platform) (platform header : String)
      (s : Service L)
      → requested limits u published platform header ≡ plat.platform
      → is_codeforces_platform u plat.platform ≡ true
      → now < t + 1800
      → update limits u published now ctx user_id platform header
          (record s { statuses = mark_platform_running t user_id plat s.statuses })
        ≡ (
          UpdateReply.refreshed_lately,
          record s { statuses = mark_platform_running t user_id plat s.statuses },
        )
  unfolding update update_platform
  update-refreshed_lately t now ctx user_id plat platform header s r c h =
      let started = started-mark_platform_running t now 1800 user_id plat s.statuses in
      rw r (ground (arith, c, h, started))

  -- What is asked of a limiter: after the first call, which it allows, it allows none for the
  -- interval that it was made for.
  module _
      (none_within : (interval t now : ℕ)
        → t ≤ now
        → now < t + interval
        → (limits.allow now (limits.allow t (limits.new_limiter interval)).1).0 ≡ false) where
    second-limited :
        (key : String) (interval t now : ℕ) (rest : List (String × L))
        → t ≤ now
        → now < t + interval
        → get_limiter_by_key limits key interval rest ≡ limits.new_limiter interval
        → (allow_key limits now key interval (allow_key limits t key interval rest).1).0 ≡ false
    unfolding allow_key get_limiter_by_key
    second-limited key interval t now rest a b n =
        ground (arith, n, str_eq_iff key key, none_within interval t now a b)

    limiters-update :
        (t : ℕ) (ctx : Ctx) (user_id : ℕ) (platform : String) (s : Service L)
        → is_lately (update_platform limits u published t ctx user_id platform s).0 ≡ false
        → (update_platform limits u published t ctx user_id platform s).1.limiters
          ≡ (allow_key limits t
              (limiter_key user_id platform)
              (manual_refresh_window u platform)
              s.limiters).1
    unfolding update_platform update_reply
    limiters-update t ctx user_id platform s d = ground (arith, d)

    queue-limited :
        (now : ℕ) (ctx : Ctx) (user_id : ℕ) (platform : String) (s : Service L)
        → (allow_key limits now
            (limiter_key user_id platform)
            (manual_refresh_window u platform)
            s.limiters).0
          ≡ false
        → (update_platform limits u published now ctx user_id platform s).1.queue ≡ s.queue
    unfolding update_platform
    queue-limited now ctx user_id platform s d = ground (arith, d)

    -- For a user and platform whose limiter is new: once Update has been answered otherwise than
    -- that a refresh was lately, a second Update of them within the window queues nothing, whoever asks.
    pub update-limited :
        (t now : ℕ) (ctx other : Ctx) (user_id : ℕ) (platform header : String) (s : Service L)
        → t ≤ now
        → now < t + manual_refresh_window u (requested limits u published platform header)
        → get_limiter_by_key limits
            (limiter_key user_id (requested limits u published platform header))
            (manual_refresh_window u (requested limits u published platform header))
            s.limiters
          ≡ limits.new_limiter
              (manual_refresh_window u (requested limits u published platform header))
        → is_lately (update limits u published t ctx user_id platform header s).0 ≡ false
        → (update limits u published now other user_id platform header
            (update limits u published t ctx user_id platform header s).1).1.queue
          ≡ (update limits u published t ctx user_id platform header s).1.queue
    unfolding update
    update-limited t now ctx other user_id platform header s a b n d =
        let site = requested limits u published platform header in
        let key = limiter_key user_id site in
        let window = manual_refresh_window u site in
        let after = (update_platform limits u published t ctx user_id site s).1 in
        queue-limited now other user_id site after (
          ap (λ l. (allow_key limits now key window l).0) (limiters-update t ctx user_id site s d)
          ∙ second-limited key window t now s.limiters a b n)
