-- ===== src/Spider/Normalize.antt =====
-- normalizeFetchedSubmitLogs (app/core_data/internal/biz/service/spider_normalize.go).
pub mod Rows
pub mod Placed
pub mod Laws
use wust_algo_tracker.Prelude.{
  ℕ, zero, suc, String, Bool, true, false, ◌&&◌, ◌||◌, Option, none, some, List, [], ◌∷◌, ◌++◌,
  ◌==◌, ltb, str_eq, if◌then◌else◌, length,
}
use wust_algo_tracker.Text.{is_empty, trim_space}

-- model.SubmitLog, without the id that the database gives; `none` is the zero time.
pub record SubmitLog : Type 0 where
  pub platform : String
  pub user_id : ℕ
  pub submit_id : String
  pub contest : String
  pub problem : String
  pub lang : String
  pub status : String
  pub time : Option ℕ

-- `indexBySubmitID[id]`, with the entries of the map in the order of their insertion, the last first.
unfoldable pub lookup : String → List (String × ℕ) → Option ℕ
lookup id [] = none
lookup id ((key, i) ∷ index) = if str_eq key id then some i else lookup id index

-- `normalized[i] = item`
unfoldable pub set_at : ℕ → SubmitLog → List SubmitLog → List SubmitLog
set_at i item [] = []
set_at zero item (r ∷ rows) = item ∷ rows
set_at (suc i) item (r ∷ rows) = r ∷ set_at i item rows

-- The variables of the loop.
pub record Progress : Type 0 where
  pub normalized : List SubmitLog
  pub index : List (String × ℕ)
  pub skipped : ℕ

abbrev pub is_zero_time : Option ℕ → Bool
is_zero_time none = true
is_zero_time (some t) = false

-- The assignments to the fields of an item.
unfoldable pub cleaned : ℕ → String → SubmitLog → SubmitLog
unfolding trim_space
cleaned user_id platform item = record {
  platform = platform;
  user_id = user_id;
  submit_id = trim_space item.submit_id;
  contest = trim_space item.contest;
  problem = trim_space item.problem;
  lang = trim_space item.lang;
  status = trim_space item.status;
  time = item.time;
}

-- The end of the loop's body: over the row of that id, or at the end.
unfoldable pub place : Option ℕ → SubmitLog → Progress → Progress
unfolding set_at
place (some i) item p = record p {
  normalized = set_at i item p.normalized;
  skipped = suc p.skipped;
}
place none item p = record p {
  normalized = p.normalized ++ item ∷ [];
  index = (item.submit_id, length p.normalized) ∷ p.index;
}

-- The items that the loop leaves out.
unfoldable pub is_invalid : SubmitLog → Bool
unfolding trim_space
is_invalid item = is_empty (trim_space item.submit_id) || is_zero_time item.time

-- The loop's body.
unfoldable pub add : ℕ → String → SubmitLog → Progress → Progress
unfolding cleaned place lookup is_invalid
add user_id platform item p =
    if is_invalid item
    then record p { skipped = suc p.skipped }
    else place (lookup (cleaned user_id platform item).submit_id p.index)
        (cleaned user_id platform item) p

unfoldable pub add_all : ℕ → String → List SubmitLog → Progress → Progress
unfolding add
add_all user_id platform [] p = p
add_all user_id platform (item ∷ logs) p =
    add_all user_id platform logs (add user_id platform item p)

abbrev pub nothing_yet : Progress
nothing_yet = record { normalized = []; index = []; skipped = 0 }

-- What normalizeFetchedSubmitLogs returns: `none` for the rows where it returns an error.
unfoldable pub normalize_fetched_submit_logs :
    ℕ → String → List SubmitLog → Option (List SubmitLog) × ℕ
unfolding add_all
normalize_fetched_submit_logs user_id platform logs =
    let p = add_all user_id platform logs nothing_yet in
    (if ltb 0 (length logs) && length p.normalized == 0 then none else some p.normalized, p.skipped)
