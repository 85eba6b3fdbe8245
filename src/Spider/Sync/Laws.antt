-- ===== src/Spider/Sync/Laws.antt =====
-- The rows of a platform's refreshes after a refresh has been marked.
use wust_algo_tracker.Prelude.{
  ℕ, ◌+◌, ◌≡◌, refl, true, not, ◌&&◌, ◌==◌, ltb, Option, none, some, List, [], ◌∷◌, arith,
  str_eq_iff, ==_iff,
}
use wust_algo_tracker.Table.{find}
use wust_algo_tracker.Spider.Sync.{
  SpiderSyncStatus, is_status_of, new_status, upsert_platform_status, mark_platform_running,
  platform_refresh_started_within,
}
use wust_algo_tracker.Contest.Official.{Platform}

-- The row that an update is made on.
abbrev pub row_or_new : ℕ → Platform → Option SpiderSyncStatus → SpiderSyncStatus
row_or_new user_id plat none = new_status user_id plat
row_or_new user_id plat (some s) = s

find-upsert :
    (user_id : ℕ) (plat : Platform) (f : SpiderSyncStatus → SpiderSyncStatus)
    (rows : List SpiderSyncStatus)
    → ((s : SpiderSyncStatus)
        → is_status_of user_id plat.platform s ≡ true
        → is_status_of user_id plat.platform (f s) ≡ true)
    → find (is_status_of user_id plat.platform) (upsert_platform_status user_id plat f rows)
      ≡ some (f (row_or_new user_id plat (find (is_status_of user_id plat.platform) rows)))
unfolding find upsert_platform_status
find-upsert user_id plat f [] k = ground (
  arith,
  k (new_status user_id plat),
  ==_iff user_id user_id,
  str_eq_iff plat.platform plat.platform,
)
find-upsert user_id plat f (s ∷ rows) k = ground (arith, k s, find-upsert user_id plat f rows k)

-- After a refresh is marked as started, a refresh of that user and platform is too early for the window.
pub started-mark_platform_running :
    (t now window user_id : ℕ) (plat : Platform) (rows : List SpiderSyncStatus)
    → platform_refresh_started_within now user_id plat.platform window
        (mark_platform_running t user_id plat rows)
      ≡ (not (window == 0) && ltb now (t + window))
unfolding platform_refresh_started_within mark_platform_running
started-mark_platform_running t now window user_id plat rows =
    rw
      (find-upsert user_id plat
        (λ s. record s {
          username = plat.username;
          status = "running";
          last_started_at = some t;
          last_error = "";
        })
        rows (λ s h. h))
      refl
