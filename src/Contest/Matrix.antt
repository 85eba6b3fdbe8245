-- ===== src/Contest/Matrix.antt =====
-- loadContestSubmissions and buildContestMatrix (app/core_data/internal/service/contest_matrix.go).
pub mod Laws
pub mod Built
use wust_algo_tracker.Prelude.{
  ℕ, ◌%◌, String, Bool, true, false, not, ◌&&◌, ◌||◌, ◌==◌, ltb, Option, none, some, List, [], ◌∷◌,
  map, any, filter, length, str_eq, if◌then◌else◌,
}
use wust_algo_tracker.Prelude.Sorting.{slice_stable}
use wust_algo_tracker.Text.{is_empty}
use wust_algo_tracker.Text.Unicode.{Unicode, map_runes, to_lower}
use wust_algo_tracker.Spider.Normalize.{SubmitLog, is_zero_time}
use wust_algo_tracker.Contest.{ContestLog, ContestProblemMeta, before}
use wust_algo_tracker.Contest.Users.{mem, collect_contest_user_ids}
use wust_algo_tracker.Contest.Address.{at_coder, code_forces, now_coder, is_contest_platform}
use wust_algo_tracker.Contest.Problems.{synthesize_now_coder_problems, normalize_contest_problems}
use wust_algo_tracker.Contest.Board.{
  Window, ProblemResult, ProblemColumnStat, ContestProblemCalculation,
  calculate_contest_problem_matrix,
}

-- atCoderMatrixMeta
pub record MatrixMeta : Type 0 where
  pub title : String
  pub start : Option ℕ
  pub end : Option ℕ
  pub problems : List ContestProblemMeta

-- The functions that fetch the metadata of a contest from its site; `none` is an error.
pub record Sites : Type 0 where
  pub fetch_at_coder_matrix_meta : String → Option MatrixMeta
  pub fetch_codeforces_matrix_meta : String → Option MatrixMeta
  pub fetch_now_coder_matrix_meta : String → Option MatrixMeta

-- contest_log.ProblemColumn; its counts are `int32`.
pub record ProblemColumn : Type 0 where
  pub index : String
  pub name : String
  pub problem_key : String
  pub problem_url : String
  pub contest_accepted : ℕ
  pub contest_attempted : ℕ
  pub upsolve_accepted : ℕ

pub record ContestMatrixResult : Type 0 where
  pub problems : List ProblemColumn
  pub results_by_user : ℕ → List ProblemResult
  pub penalty_by_user : ℕ → ℕ
  pub contest_ac_count_by_user : ℕ → ℕ
  pub degraded_reason : String

-- The variables that the metadata sets.
pub record Setting : Type 0 where
  pub start : Option ℕ
  pub end : Option ℕ
  pub meta_problems : List ContestProblemMeta
  pub degraded_reason : String

abbrev pub or_time : Option ℕ → Option ℕ → Option ℕ
or_time none t = t
or_time (some s) t = some s

abbrev pub or_reason : String → String → String
or_reason reason text = if is_empty reason then text else reason

-- The metadata of a contest, or the reason why there is none.
abbrev pub with_meta : Option MatrixMeta → String → Setting → Setting
with_meta none reason s = record s { degraded_reason = or_reason s.degraded_reason reason }
with_meta (some meta) reason s = record s {
  start = or_time meta.start s.start;
  end = or_time meta.end s.end;
  meta_problems = meta.problems;
}

-- The end lies after the start, and both are known.
abbrev pub is_window : Option ℕ → Option ℕ → Bool
is_window start end = not (is_zero_time start) && (not (is_zero_time end) && before start end)

abbrev pub earlier : SubmitLog → SubmitLog → Bool
earlier x y = before x.time y.time

unfoldable pub column_of : ContestProblemMeta → ProblemColumnStat → ProblemColumn
column_of problem stat = record {
  index = problem.index;
  name = problem.name;
  problem_key = problem.key;
  problem_url = problem.url;
  contest_accepted = stat.contest_accepted % 4294967296;
  contest_attempted = stat.contest_attempted % 4294967296;
  upsolve_accepted = stat.upsolve_accepted % 4294967296;
}

module _ (u : Unicode) where
  abbrev pub is_on : String → List ℕ → SubmitLog → Bool
  is_on platform user_ids sub =
      str_eq (to_lower u sub.platform) (to_lower u platform) && mem sub.user_id user_ids

  -- loadContestSubmissions
  unfoldable pub load_contest_submissions :
      List SubmitLog → String → String → List ℕ → Option ℕ → Option ℕ → List SubmitLog
  unfolding slice_stable filter map_runes any
  load_contest_submissions table platform contest_id user_ids start end =
      let submissions =
        slice_stable earlier
          (filter (λ sub. is_on platform user_ids sub && str_eq sub.contest contest_id) table) in
      if length user_ids == 0
      then []
      else if ltb 0 (length submissions) || not (is_window start end)
      then submissions
      else slice_stable earlier (
          filter
            (λ sub.
              is_on platform user_ids sub && (not (before sub.time start) && before sub.time end))
            table)

  -- The columns and results of the matrix, once its submissions are loaded.
  unfoldable pub draw_matrix :
      String
      → String
      → Setting
      → List ContestProblemMeta
      → List SubmitLog
      → List ℕ
      → List ℕ
      → ContestMatrixResult
  unfolding normalize_contest_problems calculate_contest_problem_matrix column_of
  draw_matrix platform contest_id s metas submissions page_user_ids all_user_ids =
      let problems = normalize_contest_problems u platform contest_id metas submissions in
      let window : Window = record {
        start = s.start;
        end = s.end;
        is_reliable = is_window s.start s.end;
      } in
      let calculated =
        calculate_contest_problem_matrix u window problems submissions page_user_ids all_user_ids in
      record {
        problems =
            map (λ problem. column_of problem (calculated.totals.stats problem.key)) problems;
        results_by_user = calculated.results_by_user;
        penalty_by_user = calculated.totals.penalty_by_user;
        contest_ac_count_by_user = calculated.totals.contest_ac_count_by_user;
        degraded_reason =
            if is_window s.start s.end
            then s.degraded_reason
            else or_reason s.degraded_reason "缺少官方比赛结束时间，赛后补题不会单独标记。";
      }

  abbrev pub if_platform : String → String → Option MatrixMeta → String → Setting → Setting
  if_platform platform target meta reason s =
      if is_contest_platform u platform target then with_meta meta reason s else s

  -- The start and the end of the contest, and its problems, from its site where it can be asked.
  unfoldable pub settle : Sites → ContestLog → Setting
  unfolding is_contest_platform
  settle sites contest =
      if_platform contest.platform now_coder (sites.fetch_now_coder_matrix_meta contest.contest_id)
        "NowCoder 元数据获取失败，题目列按本站提交记录生成。"
        (if_platform contest.platform code_forces
          (sites.fetch_codeforces_matrix_meta contest.contest_id) "Codeforces 元数据获取失败，题目列按本站提交记录生成。"
          (if_platform contest.platform at_coder
            (sites.fetch_at_coder_matrix_meta contest.contest_id) "AtCoder 元数据获取失败，题目列按本站提交记录生成。"
            record {
              start = contest.time;
              end = contest.end_time;
              meta_problems = [];
              degraded_reason = "";
            }))

  -- The problems of the metadata, or those made up in their place; `none` where that does not end.
  unfoldable pub meta_problems :
      ContestLog → List ContestProblemMeta → List SubmitLog → Option (List ContestProblemMeta)
  unfolding is_contest_platform synthesize_now_coder_problems
  meta_problems contest metas submissions =
      if is_contest_platform u contest.platform now_coder
        && ((length metas == 0) && ltb 0 contest.total_count)
      then synthesize_now_coder_problems u contest.contest_id contest.total_count
          contest.total_count submissions
      else some metas

  abbrev empty_matrix : ContestMatrixResult
  empty_matrix = record {
    problems = [];
    results_by_user = λ user_id. [];
    penalty_by_user = λ user_id. 0;
    contest_ac_count_by_user = λ user_id. 0;
    degraded_reason = "";
  }

  -- buildContestMatrix; `none` where it does not return.
  unfoldable pub build_contest_matrix :
      Sites
      → List SubmitLog
      → ContestLog
      → List ContestLog
      → List ContestLog
      → Option ContestMatrixResult
  unfolding settle meta_problems load_contest_submissions draw_matrix collect_contest_user_ids
  build_contest_matrix sites table contest page_logs all_logs =
      let s = settle sites contest in
      let all_user_ids = collect_contest_user_ids all_logs in
      let page_user_ids = collect_contest_user_ids page_logs in
      let submissions =
        load_contest_submissions table contest.platform contest.contest_id all_user_ids s.start
          s.end in
      if (length page_logs == 0) || (is_empty contest.contest_id || is_empty contest.platform)
      then some empty_matrix
      else elim (meta_problems contest s.meta_problems submissions) [
        | none ↦ none
        | some metas ↦ some (
            draw_matrix contest.platform contest.contest_id s metas submissions page_user_ids
              all_user_ids)
      ]
