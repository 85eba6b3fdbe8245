-- ===== src/Contest/Status.antt =====
-- The rules of app/core_data/internal/data/dal/statistic_rules.go.
use Prim.Native.String.{◌++◌ as str_append}
use wust_algo_tracker.Prelude.{ℕ, String, Bool, ◌||◌, str_eq, if◌then◌else◌}
use wust_algo_tracker.Text.{is_empty, trim_space}
use wust_algo_tracker.Text.Unicode.{Unicode, to_upper, contains, map_runes}
use wust_algo_tracker.Text.Format.{decimal}

-- IsAcceptedStatus
unfoldable pub is_accepted_status : Unicode → String → Bool
unfolding trim_space map_runes contains
is_accepted_status u status =
    let normalized = to_upper u (trim_space status) in
    str_eq normalized "AC"
    || (str_eq normalized "OK" || (contains normalized "ACCEPTED" || contains status "正确"))

-- BuildProblemDistinctKey
unfoldable pub build_problem_distinct_key : ℕ → String → String → String → String
unfolding trim_space decimal
build_problem_distinct_key user_id platform problem submit_id =
    let problem_key = trim_space problem in
    str_append (decimal user_id) (
      str_append "|" (
        str_append platform
          (str_append "|" (if is_empty problem_key then submit_id else problem_key))))
