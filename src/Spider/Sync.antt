-- ===== src/Spider/Sync.antt =====
-- The rows of spider_sync_statuses: their updates (upsertPlatformStatus and its callers, app/core_data/internal/biz/service/spider.go), when a refresh is too early, and the
-- handler Status (app/core_data/internal/service/spider.go). Times are seconds.
pub mod Laws
use wust_algo_tracker.Prelude.{
  ℕ, suc, ◌+◌, String, Bool, true, false, not, ◌&&◌, ◌||◌, ◌==◌, ltb, Option, none, some, List, [],
  ◌∷◌, ◌++◌, map, str_eq, if◌then◌else◌,
}
use wust_algo_tracker.Table.{find, update_where, select}
use wust_algo_tracker.Text.{is_empty, trim_space}
use wust_algo_tracker.Text.Unicode.{Unicode, equal_fold}
use wust_algo_tracker.Permission.{Ctx, verify_self_or_above, can_manage_core_ops}
use wust_algo_tracker.Spider.Service.{Refusal, forbidden, can_view_user_detail}
use wust_algo_tracker.Contest.Official.{Platform}

-- model.SpiderSyncStatus, without its id
pub record SpiderSyncStatus : Type 0 where
  pub user_id : ℕ
  pub platform : String
  pub username : String
  pub status : String
  pub last_started_at : Option ℕ
  pub last_finished_at : Option ℕ
  pub last_success_at : Option ℕ
  pub last_error : String
  pub last_fetched_count : ℕ
  pub last_skipped_count : ℕ
  pub consecutive_failure : ℕ

-- `Where("user_id = ? AND platform = ?", ...)`
abbrev pub is_status_of : ℕ → String → SpiderSyncStatus → Bool
is_status_of user_id platform s = (s.user_id == user_id) && str_eq s.platform platform

abbrev pub new_status : ℕ → Platform → SpiderSyncStatus
new_status user_id plat = record {
  user_id = user_id;
  platform = plat.platform;
  username = plat.username;
  status = "";
  last_started_at = none;
  last_finished_at = none;
  last_success_at = none;
  last_error = "";
  last_fetched_count = 0;
  last_skipped_count = 0;
  consecutive_failure = 0;
}

-- upsertPlatformStatus: the first row of the user and platform, or a new one, is updated.
unfoldable pub upsert_platform_status :
    ℕ
    → Platform
    → (SpiderSyncStatus → SpiderSyncStatus)
    → List SpiderSyncStatus
    → List SpiderSyncStatus
upsert_platform_status user_id plat updates [] = updates (new_status user_id plat) ∷ []
upsert_platform_status user_id plat updates (s ∷ rows) =
    let rest = upsert_platform_status user_id plat updates rows in
    if is_status_of user_id plat.platform s then updates s ∷ rows else s ∷ rest

unfoldable pub mark_platform_running :
    ℕ → ℕ → Platform → List SpiderSyncStatus → List SpiderSyncStatus
unfolding upsert_platform_status
mark_platform_running now user_id plat = upsert_platform_status user_id plat (λ s. record s {
  username = plat.username;
  status = "running";
  last_started_at = some now;
  last_error = "";
})

unfoldable pub mark_platform_success :
    ℕ → ℕ → Platform → ℕ → ℕ → List SpiderSyncStatus → List SpiderSyncStatus
unfolding upsert_platform_status
mark_platform_success now user_id plat count skipped = upsert_platform_status user_id plat (λ s.
    record s {
      username = plat.username;
      status = "success";
      last_finished_at = some now;
      last_success_at = some now;
      last_fetched_count = count;
      last_skipped_count = skipped;
      last_error = "";
      consecutive_failure = 0;
    })

unfoldable pub mark_platform_failed :
    ℕ → ℕ → Platform → String → List SpiderSyncStatus → List SpiderSyncStatus
unfolding upsert_platform_status
mark_platform_failed now user_id plat text = upsert_platform_status user_id plat (λ s. record s {
  username = plat.username;
  status = "failed";
  last_finished_at = some now;
  last_error = text;
  consecutive_failure = suc s.consecutive_failure;
})

abbrev pub started_within : ℕ → ℕ → Option SpiderSyncStatus → Bool
started_within now window none = false
started_within now window (some s) = elim s.last_started_at [
  | none ↦ false
  | some t ↦ ltb now (t + window)
]

-- platformRefreshStartedWithin, where no start lies after now
unfoldable pub platform_refresh_started_within : ℕ → ℕ → String → ℕ → List SpiderSyncStatus → Bool
unfolding find
platform_refresh_started_within now user_id platform window statuses =
    not (window == 0) && started_within now window (find (is_status_of user_id platform) statuses)

module _ (u : Unicode) where
  -- isCodeforcesPlatform
  unfoldable pub is_codeforces_platform : String → Bool
  unfolding equal_fold trim_space
  is_codeforces_platform platform = equal_fold u (trim_space platform) "CodeForces"

  -- samePlatformUsername
  unfoldable pub same_platform_username : String → String → String → Bool
  unfolding is_codeforces_platform equal_fold trim_space
  same_platform_username platform current next =
      if is_codeforces_platform platform
      then equal_fold u (trim_space current) (trim_space next)
      else str_eq (trim_space current) (trim_space next)

  -- manualRefreshWindow
  unfoldable pub manual_refresh_window : String → ℕ
  unfolding is_codeforces_platform
  manual_refresh_window platform = if is_codeforces_platform platform then 1800 else 60

  -- filterRecentCodeforcesRefresh, whose window is 30 minutes
  unfoldable pub filter_recent_codeforces_refresh :
      ℕ → ℕ → List SpiderSyncStatus → List Platform → List Platform
  unfolding is_codeforces_platform platform_refresh_started_within select
  filter_recent_codeforces_refresh now user_id statuses platforms =
      select
        (λ plat. not (
          is_codeforces_platform plat.platform
          && platform_refresh_started_within now user_id plat.platform 1800 statuses))
        platforms

-- SyncStatusInfo
pub record SyncStatusInfo : Type 0 where
  pub platform : String
  pub username : String
  pub status : String
  pub last_started_at : ℕ
  pub last_finished_at : ℕ
  pub last_success_at : ℕ
  pub last_error : String
  pub last_fetched_count : ℕ
  pub is_stale : Bool
  pub can_view_error : Bool

-- toUnix
abbrev pub to_unix : Option ℕ → ℕ
to_unix none = 0
to_unix (some t) = t

abbrev pub is_stale_at : ℕ → Option ℕ → Bool
is_stale_at now none = true
is_stale_at now (some t) = ltb (t + 86400) now

-- The loop's body of Status, given the row of the platform.
unfoldable pub status_info : ℕ → Bool → Platform → Option SpiderSyncStatus → SyncStatusInfo
status_info now can_view_error plat none = record {
  platform = plat.platform;
  username = plat.username;
  status = "never";
  last_started_at = 0;
  last_finished_at = 0;
  last_success_at = 0;
  last_error = "";
  last_fetched_count = 0;
  is_stale = true;
  can_view_error = can_view_error;
}
status_info now can_view_error plat (some s) = record {
  platform = plat.platform;
  username = plat.username;
  status = s.status;
  last_started_at = to_unix s.last_started_at;
  last_finished_at = to_unix s.last_finished_at;
  last_success_at = to_unix s.last_success_at;
  last_error = if can_view_error then s.last_error else "";
  last_fetched_count = s.last_fetched_count;
  is_stale = is_stale_at now s.last_success_at;
  can_view_error = can_view_error;
}

-- `statusByPlatform[platform]`: the last of the user's rows.
unfoldable pub status_by_platform : ℕ → String → List SpiderSyncStatus → Option SpiderSyncStatus
status_by_platform user_id platform [] = none
status_by_platform user_id platform (s ∷ rows) = elim (status_by_platform user_id platform rows) [
  | none ↦ if is_status_of user_id platform s then some s else none
  | some t ↦ some t
]

pub data StatusReply : Type 0 where
  no_user not_allowed : StatusReply
  statuses_of : List SyncStatusInfo → StatusReply

-- isCoachOrAdmin
unfoldable pub is_coach_or_admin : Ctx → Bool
unfolding can_manage_core_ops
is_coach_or_admin none = false
is_coach_or_admin (some current) = can_manage_core_ops current.role_id

-- Status
unfoldable pub status : ℕ → Ctx → ℕ → List Platform → List SpiderSyncStatus → StatusReply
unfolding verify_self_or_above is_coach_or_admin can_view_user_detail select status_info
    status_by_platform
status now ctx user_id platforms statuses =
    if user_id == 0
    then StatusReply.no_user
    else if not (verify_self_or_above ctx user_id) && not (is_coach_or_admin ctx)
    then StatusReply.not_allowed
    else StatusReply.statuses_of (
        map
          (λ plat.
            status_info now (can_view_user_detail ctx user_id) plat
              (status_by_platform user_id plat.platform statuses))
          (select (λ plat. plat.user_id == user_id) platforms))
