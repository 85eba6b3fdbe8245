-- ===== src/Spider/Store.antt =====
-- fetchAndSave and loadOnePlatform of app/core_data/internal/biz/service/spider.go. What a platform's
-- plugin answers is a parameter, and so is what `strings.Contains` says of a plugin's error text.
pub mod Laws
pub mod Retries
pub mod Counts
use wust_algo_tracker.Prelude.{
  ℕ, zero, suc, ◌+◌, String, Bool, true, false, not, ◌&&◌, ◌||◌, Option, none, some, List, [], ◌∷◌,
  ◌++◌, ◌==◌, ltb, leb, str_eq, if◌then◌else◌, length,
}
use wust_algo_tracker.Table.{delete_where, count_where}
use wust_algo_tracker.Spider.Normalize.{SubmitLog, normalize_fetched_submit_logs}

-- What `spider.Get` and `FetchSubmitLog` answer.
pub data Plugin : Type 0 where
  no_plugin no_fetcher : Plugin
  fails : String → Plugin
  fetches : List SubmitLog → Plugin

-- The errors of fetchAndSave, by the message they carry.
pub data FetchError : Type 0 where
  plugin_missing not_implemented : FetchError
  fetch_failed : String → FetchError
  all_invalid : String → FetchError
  incomplete : String → ℕ → ℕ → FetchError

-- The count and the number of skipped items, or an error and that number.
pub data Outcome : Type 0 where
  saved : ℕ → ℕ → Outcome
  refused : ℕ → FetchError → Outcome

-- The unique index of submit_logs.
abbrev pub has_key : String → String → SubmitLog → Bool
has_key platform submit_id r = str_eq r.platform platform && str_eq r.submit_id submit_id

-- One row of the insert: on a conflict the other columns of the row are replaced.
unfoldable pub upsert : SubmitLog → List SubmitLog → List SubmitLog
upsert item [] = item ∷ []
upsert item (r ∷ rows) =
    let rest = upsert item rows in
    if has_key item.platform item.submit_id r
    then record r {
      user_id = item.user_id;
      contest = item.contest;
      problem = item.problem;
      lang = item.lang;
      status = item.status;
      time = item.time;
    }
      ∷ rows
    else r ∷ rest

-- CreateInBatches
unfoldable pub upsert_all : List SubmitLog → List SubmitLog → List SubmitLog
unfolding upsert
upsert_all [] rows = rows
upsert_all (item ∷ items) rows = upsert_all items (upsert item rows)

-- rejectIncompleteFullFetch, whether it returns an error
unfoldable pub reject_incomplete_full_fetch : ℕ → ℕ → Bool → Bool
reject_incomplete_full_fetch fetched existing need_all =
    not (not need_all || (existing == 0 || leb existing fetched))

abbrev pub is_of : ℕ → String → SubmitLog → Bool
is_of user_id platform r = r.user_id == user_id && str_eq r.platform platform

-- The transaction of fetchAndSave.
unfoldable pub save : ℕ → String → Bool → List SubmitLog → List SubmitLog → List SubmitLog
unfolding upsert_all delete_where
save user_id platform need_all items rows =
    upsert_all items (if need_all then delete_where (is_of user_id platform) rows else rows)

-- fetchAndSave, from the normalized items on.
unfoldable pub save_fetched :
    ℕ → String → Bool → Option (List SubmitLog) × ℕ → List SubmitLog → Outcome × List SubmitLog
unfolding save reject_incomplete_full_fetch count_where
save_fetched user_id platform need_all (none, skipped) rows =
    (refused skipped (all_invalid platform), rows)
save_fetched user_id platform need_all (some items, skipped) rows =
    let existing = count_where (is_of user_id platform) rows in
    if reject_incomplete_full_fetch (length items) existing need_all
    then (refused skipped (incomplete platform (length items) existing), rows)
    else (saved (length items) skipped, save user_id platform need_all items rows)

-- fetchAndSave
unfoldable pub fetch_and_save :
    Plugin → ℕ → String → Bool → List SubmitLog → Outcome × List SubmitLog
unfolding save_fetched normalize_fetched_submit_logs
fetch_and_save no_plugin user_id platform need_all rows = (refused 0 plugin_missing, rows)
fetch_and_save no_fetcher user_id platform need_all rows = (refused 0 not_implemented, rows)
fetch_and_save (fails text) user_id platform need_all rows = (refused 0 (fetch_failed text), rows)
fetch_and_save (fetches logs) user_id platform need_all rows =
    save_fetched user_id platform need_all (normalize_fetched_submit_logs user_id platform logs)
      rows

-- What the exhausted loop returns.
unfoldable pub exhausted : Outcome → Outcome
exhausted (saved count skipped) = saved count skipped
exhausted (refused skipped e) = refused 0 e

module _ (mentions : String → Bool) where
  -- `strings.Contains(err.Error(), "平台")`: the fixed messages have the word, that of rejected
  -- items only if the platform's name has it.
  unfoldable pub is_final : FetchError → Bool
  is_final plugin_missing = true
  is_final not_implemented = true
  is_final (fetch_failed text) = mentions text
  is_final (all_invalid platform) = mentions platform
  is_final (incomplete platform fetched existing) = true

  -- After an attempt of loadOnePlatform: whether the loop returns.
  unfoldable pub stops : Bool → Outcome → Bool
  unfolding is_final
  stops need_all (saved count skipped) = true
  stops need_all (refused skipped e) = is_final e || not need_all

  -- The loop of loadOnePlatform with `left` attempts after this one, and with it the number of
  -- attempts made; `attempt i` is what the plugin answers the i-th time.
  unfoldable pub attempts :
      (ℕ → Plugin) → ℕ → String → Bool → ℕ → ℕ → List SubmitLog → (Outcome × List SubmitLog) × ℕ
  unfolding fetch_and_save stops exhausted
  attempts attempt user_id platform need_all i zero rows =
      let r = fetch_and_save (attempt i) user_id platform need_all rows in
      ((if stops need_all r.0 then r.0 else exhausted r.0, r.1), suc i)
  attempts attempt user_id platform need_all i (suc left) rows =
      let r = fetch_and_save (attempt i) user_id platform need_all rows in
      let later = attempts attempt user_id platform need_all (suc i) left r.1 in
      if stops need_all r.0 then (r, suc i) else later

  -- loadOnePlatform: 12 attempts, and 1 for CodeForces.
  unfoldable pub load_one_platform :
      (ℕ → Plugin) → ℕ → String → Bool → List SubmitLog → (Outcome × List SubmitLog) × ℕ
  unfolding attempts
  load_one_platform attempt user_id platform need_all rows =
      attempts attempt user_id platform need_all 0 (if str_eq platform "CodeForces" then 0 else 11)
        rows
