-- ===== src/Contest/Board.antt =====
-- calculateContestProblemMatrix (app/core_data/internal/service/contest_matrix.go): the results of
-- a contest's users on its problems. Its maps are functions, which answer a missing key with the
-- zero value, as Go's do and as ensureState does. Times are counted in microseconds, as the
-- database keeps them.
pub mod Split
pub mod Verdict
pub mod Stats
pub mod Laws
use Prim.Native.Nat.{min}
use wust_algo_tracker.Prelude.{
  ℕ, suc, ◌+◌, ◌-◌, ◌*◌, ◌/◌, ◌%◌, String, Bool, true, false, not, ◌&&◌, ◌||◌, ◌==◌, Option, none,
  some, List, [], ◌∷◌, map, any, str_eq, if◌then◌else◌,
}
use wust_algo_tracker.Text.{is_empty, trim_space}
use wust_algo_tracker.Text.Unicode.{Unicode}
use wust_algo_tracker.Spider.Normalize.{SubmitLog}
use wust_algo_tracker.Contest.{ContestProblemMeta, before, add32}
use wust_algo_tracker.Contest.Alias.{build_problem_alias_map, canonical_problem_key}
use wust_algo_tracker.Contest.Status.{is_accepted_status}

pub record ProblemUserState : Type 0 where
  pub has_contest_submit : Bool
  pub has_contest_ac : Bool
  pub contest_minute : ℕ
  pub wrong_before_ac : ℕ
  pub contest_wrong : ℕ
  pub upsolve_ac : Bool
  pub upsolve_wrong : ℕ

pub record ProblemColumnStat : Type 0 where
  pub contest_accepted : ℕ
  pub contest_attempted : ℕ
  pub upsolve_accepted : ℕ

pub data Status : Type 0 where
  none_yet contest_ac upsolve_ac contest_failed : Status

-- contest_log.ProblemResult
pub record ProblemResult : Type 0 where
  pub problem_key : String
  pub status : Status
  pub accepted_minute : ℕ
  pub wrong_before_ac : ℕ
  pub wrong_attempts : ℕ
  pub upsolved : Bool

-- What the loops read of the contest: its start, its end, and `hasReliableWindow`.
pub record Window : Type 0 where
  pub start : Option ℕ
  pub end : Option ℕ
  pub is_reliable : Bool

abbrev pub zero_state : ProblemUserState
zero_state = record {
  has_contest_submit = false;
  has_contest_ac = false;
  contest_minute = 0;
  wrong_before_ac = 0;
  contest_wrong = 0;
  upsolve_ac = false;
  upsolve_wrong = 0;
}

abbrev pub zero_stat : ProblemColumnStat
zero_stat = record { contest_accepted = 0; contest_attempted = 0; upsolve_accepted = 0 }

-- elapsedMinute: a Duration holds 2^63 - 1 nanoseconds at most.
unfoldable pub elapsed_minute : Option ℕ → Option ℕ → ℕ
elapsed_minute none t = 0
elapsed_minute (some s) none = 0
elapsed_minute (some s) (some t) = min (t - s) 9223372036854775 / 60000000

abbrev pub in_contest : Window → Option ℕ → Bool
in_contest w t = if w.is_reliable then not (before t w.start) && before t w.end else true

abbrev pub after_contest : Window → Option ℕ → Bool
after_contest w t = w.is_reliable && not (before t w.end)

-- `case inContest`
unfoldable pub contest_submit : Bool → ℕ → ProblemUserState → ProblemUserState
unfolding add32
contest_submit accepted minute s =
    let t : ProblemUserState = record s { has_contest_submit = true } in
    if s.has_contest_ac
    then t
    else if accepted
    then record t { has_contest_ac = true; contest_minute = minute }
    else record t {
      wrong_before_ac = add32 s.wrong_before_ac 1;
      contest_wrong = add32 s.contest_wrong 1;
    }

-- `case afterContest`
unfoldable pub upsolve : Bool → ProblemUserState → ProblemUserState
unfolding add32
upsolve accepted s =
    if s.has_contest_ac || s.upsolve_ac
    then s
    else if accepted
    then record s { upsolve_ac = true }
    else record s { upsolve_wrong = add32 s.upsolve_wrong 1 }

-- The problem of a submission, before its aliases are looked up.
unfoldable pub raw_key : SubmitLog → String
unfolding trim_space
raw_key sub =
    let key = trim_space sub.problem in if is_empty key then trim_space sub.submit_id else key

unfoldable pub key_of : Unicode → List (String × String) → SubmitLog → String
unfolding raw_key canonical_problem_key
key_of u aliases sub = canonical_problem_key u (raw_key sub) aliases

abbrev pub is_key_of : List ContestProblemMeta → String → Bool
is_key_of problems key = any (λ problem. str_eq problem.key key) problems

-- `*ensureState(userID, key) = s`
abbrev pub put :
    ℕ → String → ProblemUserState → (ℕ → String → ProblemUserState) → ℕ → String → ProblemUserState
put user_id key s states id other =
    if (user_id == id) && str_eq key other then s else states id other

module _ (u : Unicode) (w : Window) where
  -- What a submission does to the state of its user and problem.
  unfoldable pub judge : SubmitLog → ProblemUserState → ProblemUserState
  unfolding contest_submit upsolve is_accepted_status elapsed_minute
  judge sub s =
      if in_contest w sub.time
      then contest_submit (is_accepted_status u sub.status) (elapsed_minute w.start sub.time) s
      else if after_contest w sub.time
      then upsolve (is_accepted_status u sub.status) s
      else s

  -- The loop over the submissions.
  unfoldable pub read_submissions :
      List ContestProblemMeta
      → List (String × String)
      → List SubmitLog
      → (ℕ → String → ProblemUserState)
      → ℕ
      → String
      → ProblemUserState
  unfolding judge key_of any
  read_submissions problems aliases [] states = states
  read_submissions problems aliases (sub ∷ submissions) states =
      let key = key_of u aliases sub in
      read_submissions problems aliases submissions (
        if is_key_of problems key
        then put sub.user_id key (judge sub (states sub.user_id key)) states
        else states)

-- The maps that the loop over all users fills.
pub record Totals : Type 0 where
  pub stats : String → ProblemColumnStat
  pub penalty_by_user : ℕ → ℕ
  pub contest_ac_count_by_user : ℕ → ℕ

abbrev pub no_totals : Totals
no_totals = record {
  stats = λ key. zero_stat;
  penalty_by_user = λ user_id. 0;
  contest_ac_count_by_user = λ user_id. 0;
}

unfoldable pub count_stat : ProblemUserState → ProblemColumnStat → ProblemColumnStat
count_stat s stat = record {
  contest_accepted = if s.has_contest_ac then suc stat.contest_accepted else stat.contest_accepted;
  contest_attempted =
      if s.has_contest_submit then suc stat.contest_attempted else stat.contest_attempted;
  upsolve_accepted = if s.upsolve_ac then suc stat.upsolve_accepted else stat.upsolve_accepted;
}

-- The body of the loops over users and problems.
unfoldable pub count_cell : ProblemUserState → ℕ → String → Totals → Totals
unfolding count_stat add32
count_cell s user_id key totals = record {
  stats = λ other. if str_eq key other then count_stat s (totals.stats key) else totals.stats other;
  penalty_by_user = λ id.
      if (user_id == id) && s.has_contest_ac
      then add32 (totals.penalty_by_user id)
          (add32 s.contest_minute ((s.wrong_before_ac * 20) % 4294967296))
      else totals.penalty_by_user id;
  contest_ac_count_by_user = λ id.
      if (user_id == id) && s.has_contest_ac
      then add32 (totals.contest_ac_count_by_user id) 1
      else totals.contest_ac_count_by_user id;
}

unfoldable pub count_row :
    (ℕ → String → ProblemUserState) → ℕ → List ContestProblemMeta → Totals → Totals
unfolding count_cell
count_row states user_id [] totals = totals
count_row states user_id (problem ∷ problems) totals =
    count_row states user_id problems
      (count_cell (states user_id problem.key) user_id problem.key totals)

unfoldable pub count_all :
    (ℕ → String → ProblemUserState) → List ContestProblemMeta → List ℕ → Totals → Totals
unfolding count_row
count_all states problems [] totals = totals
count_all states problems (user_id ∷ user_ids) totals =
    count_all states problems user_ids (count_row states user_id problems totals)

abbrev pub status_of : ProblemUserState → Status
status_of s =
    if s.has_contest_ac
    then Status.contest_ac
    else if s.upsolve_ac
    then Status.upsolve_ac
    else if s.has_contest_submit
    then Status.contest_failed
    else Status.none_yet

unfoldable pub result_of : String → ProblemUserState → ProblemResult
unfolding add32
result_of key s = record {
  problem_key = key;
  status = status_of s;
  accepted_minute = s.contest_minute;
  wrong_before_ac = s.wrong_before_ac;
  wrong_attempts = add32 s.contest_wrong s.upsolve_wrong;
  upsolved = s.upsolve_ac;
}

-- The loop over the users of the page.
unfoldable pub write_results :
    (ℕ → String → ProblemUserState)
    → List ContestProblemMeta
    → List ℕ
    → (ℕ → List ProblemResult)
    → ℕ
    → List ProblemResult
unfolding result_of
write_results states problems [] results = results
write_results states problems (user_id ∷ user_ids) results =
    write_results states problems user_ids (λ id.
      if user_id == id
      then map (λ problem. result_of problem.key (states user_id problem.key)) problems
      else results id)

pub record ContestProblemCalculation : Type 0 where
  pub results_by_user : ℕ → List ProblemResult
  pub totals : Totals

unfoldable pub calculate_contest_problem_matrix :
    Unicode
    → Window
    → List ContestProblemMeta
    → List SubmitLog
    → List ℕ
    → List ℕ
    → ContestProblemCalculation
unfolding read_submissions build_problem_alias_map count_all write_results
calculate_contest_problem_matrix u w problems submissions page_user_ids all_user_ids =
    let states =
      read_submissions u w problems (build_problem_alias_map u problems) submissions
        (λ user_id key. zero_state) in
    record {
      results_by_user = write_results states problems page_user_ids (λ user_id. []);
      totals = count_all states problems all_user_ids no_totals;
    }
