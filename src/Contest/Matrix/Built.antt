-- ===== src/Contest/Matrix/Built.antt =====
-- buildContestMatrix as a whole: the board of a contest against the rules, from its rows and submissions.
use wust_algo_tracker.Prelude.{
  String, ℕ, ◌%◌, ◌≡◌, refl, ◌∙◌, Bool, true, false, ◌||◌, ◌==◌, some, List, [], map, any, length,
  if◌then◌else◌, arith,
}
use wust_algo_tracker.Text.{is_empty}
use wust_algo_tracker.Text.Unicode.{Unicode}
use wust_algo_tracker.Spider.Normalize.{SubmitLog}
use wust_algo_tracker.Contest.{ContestLog, ContestProblemMeta}
use wust_algo_tracker.Contest.Users.{collect_contest_user_ids}
use wust_algo_tracker.Contest.Users.Laws.{is_log_of, collect_contest_user_ids-mem}
use wust_algo_tracker.Contest.Board.{Window, ProblemUserState}
use wust_algo_tracker.Contest.Board.Stats.{accepted_problems, penalty}
use wust_algo_tracker.Contest.Board.Laws.{result_in, calculate-verdict, calculate-row}
use wust_algo_tracker.Contest.Problems.{normalize_contest_problems}
use wust_algo_tracker.Contest.Matrix.{
  Sites, ContestMatrixResult, is_window, load_contest_submissions, draw_matrix, settle,
  meta_problems, build_contest_matrix,
}
use wust_algo_tracker.Contest.Matrix.Laws.{
  state_of, counted, load_contest_submissions-is_ordered, draw_matrix-columns,
}

module _ (u : Unicode) (sites : Sites) (table : List SubmitLog) (contest : ContestLog)
    (page_logs all_logs : List ContestLog) where
  -- The submissions that the matrix is made of.
  unfoldable pub loaded : List SubmitLog
  unfolding load_contest_submissions collect_contest_user_ids settle
  loaded =
      load_contest_submissions u table contest.platform contest.contest_id
        (collect_contest_user_ids all_logs) (settle u sites contest).start
        (settle u sites contest).end

  -- The problems of the board, and the verdicts on it.
  abbrev pub board_problems : List ContestProblemMeta → List ContestProblemMeta
  board_problems metas =
      normalize_contest_problems u contest.platform contest.contest_id metas loaded

  abbrev pub nothing_to_build : Bool
  nothing_to_build =
      (length page_logs == 0) || (is_empty contest.contest_id || is_empty contest.platform)

  -- The verdict on a user's submissions to a problem.
  abbrev pub board_state : List ContestProblemMeta → ℕ → String → ProblemUserState
  board_state metas =
      state_of u contest.platform contest.contest_id metas loaded (settle u sites contest)

  -- A column for each problem, which counts the users of all rows by their verdicts; and for the
  -- user the number of problems accepted in the contest, the penalty of these, and, if they have a
  -- row of the page, their results.
  pub record IsBoard (metas : List ContestProblemMeta) (id : ℕ) (m : ContestMatrixResult)
      : Type 0 where
    pub columns :
        m.problems
        ≡ map
            (counted u contest.platform contest.contest_id metas loaded
              (settle u sites contest)
              (collect_contest_user_ids all_logs))
            (board_problems metas)
    pub results : m.results_by_user id ≡ (
        if any (is_log_of id) page_logs
        then map (result_in (board_state metas) id) (board_problems metas)
        else [])
    pub ac_count :
        m.contest_ac_count_by_user id
        ≡ accepted_problems (board_state metas) id (board_problems metas) % 4294967296
    pub total_penalty :
        m.penalty_by_user id ≡ penalty (board_state metas) id (board_problems metas) % 4294967296

  -- For a contest that has an id and a platform, a page that is not empty, problems that are known
  -- or made up, and a user other than 0 with one of all rows, buildContestMatrix returns a matrix that has a column
  -- for each problem, counting the users of all rows by their verdicts, and for that user the number
  -- of problems accepted in the contest, the penalty of these, both as `int32`, and, if they have a
  -- row of the page, their results.
  pub build_contest_matrix-IsBoard :
      (metas : List ContestProblemMeta) (id : ℕ)
      → nothing_to_build ≡ false
      → meta_problems u contest (settle u sites contest).meta_problems loaded ≡ some metas
      → (id == 0) ≡ false
      → any (is_log_of id) all_logs ≡ true
      → (m : ContestMatrixResult) × (build_contest_matrix u sites table contest page_logs all_logs
          ≡ some m)
        × IsBoard metas id m
  unfolding build_contest_matrix draw_matrix loaded
  build_contest_matrix-IsBoard metas id e k z h =
      let s = settle u sites contest in
      let w : Window = record {
        start = s.start;
        end = s.end;
        is_reliable = is_window s.start s.end;
      } in
      let all_ids = collect_contest_user_ids all_logs in
      let page_ids = collect_contest_user_ids page_logs in
      let ordered =
        load_contest_submissions-is_ordered u table contest.platform contest.contest_id all_ids
          s.start s.end in
      let listed = collect_contest_user_ids-mem all_logs id in
      let paged = collect_contest_user_ids-mem page_logs id in
      let row =
        calculate-row u w (board_problems metas) loaded page_ids all_ids id ordered listed.0
          (listed.1 ∙ ground (arith, z, h)) in
      (
        draw_matrix u contest.platform contest.contest_id s metas loaded page_ids all_ids,
        rw (e, k) refl,
        record {
          columns =
              draw_matrix-columns u contest.platform contest.contest_id metas loaded s page_ids
                all_ids ordered;
          results =
              calculate-verdict u w (board_problems metas) loaded page_ids all_ids id ordered
              ∙ ground (arith, z, paged.1);
          ac_count = row.0;
          total_penalty = row.1;
        },
      )
