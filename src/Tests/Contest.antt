-- ===== src/Tests/Contest.antt =====
-- A contest with one user, one problem and two submissions, and the parts of its page.
use wust_algo_tracker.Prelude.{
  ℕ, ◌+◌, ◌%◌, ◌≤◌, ◌<◌, ◌≡◌, ◌↔◌, refl, String, true, none, some, List, [], ◌∷◌, any, IsDistinct,
  count_where, length, arith,
}
use wust_algo_tracker.Text.Unicode.{Unicode}
use wust_algo_tracker.Spider.Normalize.{SubmitLog}
use wust_algo_tracker.Contest.{ContestLog, ContestProblemMeta}
use wust_algo_tracker.Contest.Alias.{build_problem_alias_map}
use wust_algo_tracker.Contest.Board.{
  Window, is_key_of, key_of, raw_key, calculate_contest_problem_matrix,
}
use wust_algo_tracker.Contest.Board.Laws.{is_contest_ac, calculate-agrees}
use wust_algo_tracker.Contest.Problems.{fill, normalize_contest_problems}
use wust_algo_tracker.Contest.Problems.Filler.{fill-never}
use wust_algo_tracker.Contest.Matrix.{
  Sites, ContestMatrixResult, settle, meta_problems, build_contest_matrix,
}
use wust_algo_tracker.Contest.Matrix.Laws.{normalize_contest_problems-covers}
use wust_algo_tracker.Contest.Matrix.Built.{IsBoard, build_contest_matrix-IsBoard}
use wust_algo_tracker.Contest.Ranking.{
  ℤ, paginate_contest_logs, sort_contest_logs, get_contest_participants, get_contest_ranking,
}
use wust_algo_tracker.Contest.Ranking.Laws.{
  paginate_contest_logs-panics, get_contest_ranking-paginate,
}
use wust_algo_tracker.Contest.Cache.{get}
use wust_algo_tracker.Contest.Cache.Laws.{Call, after, last_set, live, get-last_set}
use wust_algo_tracker.Contest.Official.{StandingsRow, rank_of, add_rows}
use wust_algo_tracker.Contest.Official.Laws.{standing, add_rows-standing}

-- Tables that change no letter.
abbrev pub plain : Unicode
plain = record { upper = λ c. c; lower = λ c. c; fold = λ c. c }

abbrev task : ContestProblemMeta
task = record { key = "abc1_a"; index = "A"; name = "Sum"; url = "x"; aliases = [] }

abbrev pub sent : String → String → ℕ → SubmitLog
sent id status time = record {
  platform = "AtCoder";
  user_id = 3;
  submit_id = id;
  contest = "abc1";
  problem = "Sum";
  lang = "Go";
  status = status;
  time = some time;
}

-- Rejected in the first minute, accepted in the second.
abbrev submissions : List SubmitLog
submissions = sent "1" "WA" 60000000 ∷ sent "2" "AC" 120000000 ∷ []

abbrev contest : ContestLog
contest = record {
  id = 1;
  platform = "AtCoder";
  user_id = 3;
  contest_id = "abc1";
  contest_name = "ABC 1";
  contest_url = "";
  rank = 0;
  total_count = 1;
  ac_count = 1;
  time = some 0;
  end_time = none;
}

abbrev sites : Sites
sites = record {
  fetch_at_coder_matrix_meta = λ id.
      some record { title = "ABC 1"; start = some 0; end = some 6000000000; problems = task ∷ [] };
  fetch_codeforces_matrix_meta = λ id. none;
  fetch_now_coder_matrix_meta = λ id. none;
}

build_contest_matrix-IsBoard_example :
    (m : ContestMatrixResult) × (build_contest_matrix plain sites submissions contest
        (contest ∷ [])
        (contest ∷ [])
      ≡ some m)
    × IsBoard plain sites submissions contest (contest ∷ []) (contest ∷ []) (task ∷ []) 3 m
unfolding meta_problems settle any
build_contest_matrix-IsBoard_example =
    build_contest_matrix-IsBoard plain sites submissions contest (contest ∷ []) (contest ∷ [])
      (task ∷ []) 3 refl refl refl refl

abbrev window : Window
window = record { start = some 0; end = some 6000000000; is_reliable = true }

calculate-agrees_example :
    (calculate_contest_problem_matrix plain window
        (task ∷ [])
        submissions
        (3 ∷ [])
        (3 ∷ [])).totals.contest_ac_count_by_user
      3
    ≡ count_where is_contest_ac (
        (calculate_contest_problem_matrix plain window
            (task ∷ [])
            submissions
            (3 ∷ [])
            (3 ∷ [])).results_by_user
          3)
      % 4294967296
unfolding IsDistinct any
calculate-agrees_example =
    calculate-agrees plain window (task ∷ []) submissions (3 ∷ []) (3 ∷ []) 3 (refl, tt) refl refl

normalize_contest_problems-covers_example :
    is_key_of (normalize_contest_problems plain "AtCoder" "abc1" (task ∷ []) submissions) (
      key_of plain
        (build_problem_alias_map plain
          (normalize_contest_problems plain "AtCoder" "abc1" (task ∷ []) submissions))
        (sent "1" "WA" 60000000))
    ≡ true
unfolding any raw_key
normalize_contest_problems-covers_example =
    normalize_contest_problems-covers plain "AtCoder" "abc1" (task ∷ []) submissions
      (sent "1" "WA" 60000000) refl refl

fill-never_example : fill plain "77" 27 1000 [] ≡ none
fill-never_example = fill-never plain "77" 27 1000 [] (ground arith)

get_contest_ranking-paginate_example :
    (paginate_contest_logs
        (sort_contest_logs (get_contest_participants (contest ∷ []) "abc1" "AtCoder" []))
        (ℤ.pos 0)
        (ℤ.negsuc 0)
      ≡ some (get_contest_ranking (contest ∷ []) "abc1" "AtCoder" (ℤ.pos 0) (ℤ.negsuc 0) []).0)
    × (length (get_contest_participants (contest ∷ []) "abc1" "AtCoder" [])
        ≡ (get_contest_ranking (contest ∷ []) "abc1" "AtCoder" (ℤ.pos 0) (ℤ.negsuc 0) []).1)
unfolding get_contest_participants
get_contest_ranking-paginate_example =
    get_contest_ranking-paginate (contest ∷ []) "abc1" "AtCoder" [] (ℤ.pos 0) (ℤ.negsuc 0)
      (ground arith) (omega arith)

-- The largest limit, from the second row on.
paginate_contest_logs-panics_example :
    (paginate_contest_logs (contest ∷ contest ∷ []) (ℤ.pos 1) (ℤ.pos 9223372036854775807) ≡ none)
    ↔ ((1 < length (contest ∷ contest ∷ [])) × (9223372036854775808 ≤ 1 + 9223372036854775807))
paginate_contest_logs-panics_example =
    paginate_contest_logs-panics (contest ∷ contest ∷ []) (ℤ.pos 1) (ℤ.pos 9223372036854775807)
      (ground arith) (ground arith)

-- Set, read after it has expired, and set again.
abbrev calls : List (Call ℕ)
calls = Call.set_at 50 "a" 8 0 ∷ Call.get_at 40 "a" ∷ Call.set_at 10 "a" 7 20 ∷ []

get-last_set_example : (get 60 "a" (after 30 calls)).0 ≡ live 60 (last_set 30 "a" calls)
get-last_set_example = get-last_set 30 60 "a" calls refl

abbrev standings : List StandingsRow
standings =
    record { rank = 0; handles = "tourist" ∷ [] }
    ∷ record { rank = 2; handles = "petr" ∷ "tourist" ∷ [] }
    ∷ []

add_rows-standing_example :
    rank_of "tourist" (add_rows plain standings []) ≡ standing plain "tourist" standings
add_rows-standing_example = add_rows-standing plain standings "tourist" refl
