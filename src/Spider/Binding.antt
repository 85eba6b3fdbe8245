-- ===== src/Spider/Binding.antt =====
-- Update and SetSpider (app/core_data/internal/service/spider.go): a refresh on request, and the
-- binding of an account. golang.org/x/time/rate and which statements of SetSpider fail are parameters.
-- The caches and the operation log are
-- left out.
pub mod Laws
use Prim.Native.String.{◌++◌ as str_append}
use wust_algo_tracker.Prelude.{
  ℕ, String, Bool, true, false, not, ◌&&◌, ◌||◌, ◌==◌, Option, none, some, List, [], ◌∷◌, ◌++◌,
  str_eq, if◌then◌else◌,
}
use wust_algo_tracker.Table.{find, delete_where}
use wust_algo_tracker.Text.{is_empty, trim_space}
use wust_algo_tracker.Text.Format.{decimal}
use wust_algo_tracker.Text.Unicode.{Unicode}
use wust_algo_tracker.Permission.{Ctx, verify_self_or_above, get_current_user_id}
use wust_algo_tracker.Spider.Normalize.{SubmitLog}
use wust_algo_tracker.Spider.Jobs.{Queue, Done, already_active, enqueued, not_published, do_refresh}
use wust_algo_tracker.Spider.Store.{is_of}
use wust_algo_tracker.Spider.Sync.{
  SpiderSyncStatus, is_status_of, platform_refresh_started_within, is_codeforces_platform,
  same_platform_username, manual_refresh_window,
}
use wust_algo_tracker.Contest.Official.{Platform}

-- rate.NewLimiter(rate.Every(interval), 1) and Allow.
pub record RateLimits (L : Type 0) : Type 0 where
  pub new_limiter : ℕ → L
  pub allow : ℕ → L → Bool × L

-- What the handlers read and write: the tables, and `limiterMap`.
pub record Service (L : Type 0) : Type 0 where
  pub queue : Queue
  pub platforms : List Platform
  pub statuses : List SpiderSyncStatus
  pub submit_logs : List SubmitLog
  pub limiters : List (String × L)

pub data UpdateReply : Type 0 where
  refreshed_lately rate_limited codeforces_rate_limited update_failed : UpdateReply
  update_busy update_started : ℕ → UpdateReply

pub data SetReply : Type 0 where
  set_forbidden set_rate_limited bound_lately set_failed set_done : SetReply

-- Which statements of SetSpider the database answers with an error.
pub record Failures : Type 0 where
  pub first_platform : Bool
  pub delete_status : Bool
  pub delete_platform : Bool
  pub delete_submit_log : Bool
  pub save_platform : Bool

abbrev pub is_binding_of : ℕ → String → Platform → Bool
is_binding_of user_id platform p = (p.user_id == user_id) && str_eq p.platform platform

unfoldable pub update_reply : Done → UpdateReply
update_reply (already_active id) = UpdateReply.update_busy id
update_reply (enqueued id) = UpdateReply.update_started id
update_reply (not_published id) = UpdateReply.update_failed

unfoldable pub limiter_key : ℕ → String → String
unfolding decimal
limiter_key user_id platform =
    str_append "update:" (
      str_append (decimal user_id) (str_append ":" (if is_empty platform then "all" else platform)))

module _ {L : Type 0} (limits : RateLimits L) where
  -- getLimiterByKey: the limiter of a key is made when it is first asked for.
  unfoldable pub get_limiter_by_key : String → ℕ → List (String × L) → L
  get_limiter_by_key key interval [] = limits.new_limiter interval
  get_limiter_by_key key interval ((k, l) ∷ limiters) =
      if str_eq k key then l else get_limiter_by_key key interval limiters

  -- `s.getLimiterByKey(key, interval).Allow()`
  unfoldable pub allow_key : ℕ → String → ℕ → List (String × L) → Bool × List (String × L)
  unfolding get_limiter_by_key
  allow_key now key interval limiters =
      let r = limits.allow now (get_limiter_by_key key interval limiters) in
      (r.0, (key, r.1) ∷ limiters)

  module _ (u : Unicode) (published : Option String) where
    -- The platform of a request, or else that of its header.
    abbrev pub requested : String → String → String
    requested platform header =
        if is_empty (trim_space platform) then trim_space header else trim_space platform

    -- Update, for a platform that is trimmed
    unfoldable pub update_platform : ℕ → Ctx → ℕ → String → Service L → UpdateReply × Service L
    unfolding is_codeforces_platform platform_refresh_started_within allow_key limiter_key
        manual_refresh_window do_refresh update_reply
    update_platform now ctx user_id platform s =
        let a =
          allow_key now (limiter_key user_id platform) (manual_refresh_window u platform)
            s.limiters in
        let d =
          do_refresh now user_id true "manual" (get_current_user_id ctx) platform published
            s.queue in
        if is_codeforces_platform u platform
          && platform_refresh_started_within now user_id platform 1800 s.statuses
        then (UpdateReply.refreshed_lately, s)
        else if not a.0
        then (
          if is_codeforces_platform u platform
              then UpdateReply.codeforces_rate_limited
              else UpdateReply.rate_limited,
          record s { limiters = a.1 },
        )
        else (update_reply d.0, record s { limiters = a.1; queue = d.1 })

    -- Update
    unfoldable pub update : ℕ → Ctx → ℕ → String → String → Service L → UpdateReply × Service L
    unfolding update_platform trim_space
    update now ctx user_id platform header s =
        update_platform now ctx user_id (requested platform header) s

    abbrev is_same : String → String → Option Platform → Bool
    is_same platform username none = false
    is_same platform username (some p) = same_platform_username u platform p.username username

    abbrev is_changed : String → String → Option Platform → Bool
    is_changed platform username none = false
    is_changed platform username (some p) =
        not (same_platform_username u platform p.username username)

    -- The deletions before a binding, each of which is logged where it fails: the status of another
    -- Codeforces account, the old binding and its submissions.
    unfoldable pub cleared :
        Failures → ℕ → String → String → Option Platform → Service L → Service L
    unfolding delete_where is_codeforces_platform same_platform_username
    cleared fails user_id platform username existing s = record s {
      statuses =
          if not fails.delete_status
            && (is_codeforces_platform u platform && is_changed platform username existing)
          then delete_where (is_status_of user_id platform) s.statuses
          else s.statuses;
      platforms =
          if fails.delete_platform
          then s.platforms
          else delete_where (is_binding_of user_id platform) s.platforms;
      submit_logs =
          if fails.delete_submit_log
          then s.submit_logs
          else delete_where (is_of user_id platform) s.submit_logs;
    }

    -- The new binding, and its refresh: an error of Do is logged.
    unfoldable pub bind : ℕ → Ctx → ℕ → String → String → Service L → Service L
    unfolding do_refresh
    bind now ctx user_id platform username s = record s {
      platforms =
          s.platforms
          ++ record { user_id = user_id; platform = platform; username = username } ∷ [];
      queue =
          (do_refresh now user_id true "bind" (get_current_user_id ctx) platform published
            s.queue).1;
    }

    -- SetSpider
    unfoldable pub set_spider :
        Failures → ℕ → Ctx → ℕ → String → String → Service L → SetReply × Service L
    unfolding verify_self_or_above allow_key decimal find is_codeforces_platform
        same_platform_username platform_refresh_started_within cleared bind trim_space
    set_spider fails now ctx user_id raw_platform raw_username s =
        let platform = trim_space raw_platform in
        let username = trim_space raw_username in
        let existing =
          if fails.first_platform
          then none
          else find (is_binding_of user_id platform) s.platforms in
        let a = allow_key now (str_append "user:" (decimal user_id)) 30 s.limiters in
        let t : Service L = record s { limiters = a.1 } in
        let c = cleared fails user_id platform username existing t in
        if not (verify_self_or_above ctx user_id)
        then (SetReply.set_forbidden, s)
        else if not a.0
        then (SetReply.set_rate_limited, t)
        else if is_codeforces_platform u platform
            && (is_same platform username existing
                && platform_refresh_started_within now user_id platform 1800 s.statuses)
        then (SetReply.bound_lately, t)
        else if fails.save_platform
        then (SetReply.set_failed, c)
        else (SetReply.set_done, bind now ctx user_id platform username c)
