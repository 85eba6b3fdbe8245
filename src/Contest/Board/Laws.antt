-- ===== src/Contest/Board/Laws.antt =====
-- What calculateContestProblemMatrix returns, by the rules of Verdict.
use wust_algo_tracker.Prelude.{
  ℕ, ◌%◌, String, ◌≡◌, refl, ap, ◌∙◌, Bool, true, false, ◌==◌, List, [], ◌∷◌, map, all, any,
  count_where, IsDistinct, arith, if◌then◌else◌, ==_iff, str_eq_iff,
}
use wust_algo_tracker.Text.Unicode.{Unicode}
use wust_algo_tracker.Spider.Normalize.{SubmitLog}
use wust_algo_tracker.Contest.{ContestProblemMeta}
use wust_algo_tracker.Contest.Users.{mem}
use wust_algo_tracker.Contest.Users.Laws.{same_id}
use wust_algo_tracker.Contest.Alias.{build_problem_alias_map}
use wust_algo_tracker.Contest.Board.{
  ProblemUserState, ProblemResult, Status, Window, zero_state, is_key_of, read_submissions,
  result_of, write_results, calculate_contest_problem_matrix, no_totals,
}
use wust_algo_tracker.Contest.Board.Split.{is_own, own, read_submissions-own}
use wust_algo_tracker.Contest.Board.Verdict.{
  is_ordered, is_ordered-filter, verdict, judge_all-verdict,
}
use wust_algo_tracker.Contest.Board.Stats.{same_key, accepted_problems, penalty, column, row}

abbrev pub has_key_in : List ContestProblemMeta → ContestProblemMeta → Bool
has_key_in problems problem = is_key_of problems problem.key

has_key-cons :
    (q : ContestProblemMeta) (qs ps : List ContestProblemMeta)
    → all (has_key_in qs) ps ≡ true
    → all (has_key_in (q ∷ qs)) ps ≡ true
unfolding all any
has_key-cons q qs [] h = refl
has_key-cons q qs (p ∷ ps) h = ground (arith, has_key-cons q qs ps)

pub has_key_self : (ps : List ContestProblemMeta) → all (has_key_in ps) ps ≡ true
unfolding all any
has_key_self [] = refl
has_key_self (p ∷ ps) =
    ground (arith, str_eq_iff p.key p.key, has_key-cons p ps ps (has_key_self ps))

-- The states of all users at a problem.
abbrev at_key : (ℕ → String → ProblemUserState) → String → ℕ → ProblemUserState
at_key states key id = states id key

-- The result of a problem for a user with these states.
abbrev pub result_in : (ℕ → String → ProblemUserState) → ℕ → ContestProblemMeta → ProblemResult
result_in states id problem = result_of problem.key (states id problem.key)

write_results-map :
    (states : ℕ → String → ProblemUserState) (problems : List ContestProblemMeta) (ids : List ℕ)
    (results : ℕ → List ProblemResult) (id : ℕ)
    → write_results states problems ids results id
      ≡ (if mem id ids then map (result_in states id) problems else results id)
unfolding write_results any
write_results-map states problems [] results id = refl
write_results-map states problems (i ∷ ids) results id =
    write_results-map states problems ids
      (λ j. if i == j then map (result_in states i) problems else results j) id
    ∙ ground (arith, ==_iff i id, ==_iff id i)

-- Two tables of states that agree on the problems.
module _ (problems : List ContestProblemMeta) (s t : ℕ → String → ProblemUserState) (id : ℕ)
    (agree : (key : String) → is_key_of problems key ≡ true → s id key ≡ t id key) where
  map-agree :
      (ps : List ContestProblemMeta)
      → all (has_key_in problems) ps ≡ true
      → map (result_in s id) ps ≡ map (result_in t id) ps
  unfolding all
  map-agree [] h = refl
  map-agree (p ∷ ps) h = ground (arith, agree p.key, map-agree ps)

  accepted-agree :
      (ps : List ContestProblemMeta)
      → all (has_key_in problems) ps ≡ true
      → accepted_problems s id ps ≡ accepted_problems t id ps
  unfolding all accepted_problems
  accepted-agree [] h = refl
  accepted-agree (p ∷ ps) h = ground (arith, agree p.key, accepted-agree ps)

  penalty-agree :
      (ps : List ContestProblemMeta)
      → all (has_key_in problems) ps ≡ true
      → penalty s id ps ≡ penalty t id ps
  unfolding all penalty
  penalty-agree [] h = refl
  penalty-agree (p ∷ ps) h = ground (arith, agree p.key, penalty-agree ps)

abbrev pub is_contest_ac : ProblemResult → Bool
is_contest_ac result = elim result.status [ Status.contest_ac ↦ true | _ ↦ false ]

-- The accepted cells of a row, counted.
count-result_in :
    (states : ℕ → String → ProblemUserState) (id : ℕ) (problems : List ContestProblemMeta)
    → count_where is_contest_ac (map (result_in states id) problems)
      ≡ accepted_problems states id problems
unfolding count_where accepted_problems result_of
count-result_in states id [] = refl
count-result_in states id (p ∷ problems) = ground (arith, count-result_in states id problems)

module _ (u : Unicode) (w : Window) (problems : List ContestProblemMeta)
    (submissions : List SubmitLog) where
  -- What the submissions of a user to a problem are worth.
  unfoldable pub cell : ℕ → String → ProblemUserState
  unfolding verdict own
  cell id key = verdict u w (own u (build_problem_alias_map u problems) id key submissions)

  states : ℕ → String → ProblemUserState
  unfolding read_submissions
  states =
      read_submissions u w problems (build_problem_alias_map u problems) submissions
        (λ user_id key. zero_state)

  states-cell :
      (id : ℕ) (key : String)
      → is_ordered submissions ≡ true
      → is_key_of problems key ≡ true
      → states id key ≡ cell id key
  unfolding states cell own
  states-cell id key o h =
      let aliases = build_problem_alias_map u problems in
      read_submissions-own u w problems aliases submissions (λ user_id key. zero_state) id key h
      ∙ judge_all-verdict u w (own u aliases id key submissions)
          (is_ordered-filter (is_own u aliases id key) submissions o)

  -- For submissions in the order of time, the board shows a user of the page, for each problem,
  -- the verdict on their own submissions to it, and nothing for another user.
  pub calculate-verdict :
      (page_user_ids all_user_ids : List ℕ) (id : ℕ)
      → is_ordered submissions ≡ true
      → (calculate_contest_problem_matrix u w problems submissions page_user_ids
            all_user_ids).results_by_user
          id
        ≡ (if mem id page_user_ids then map (result_in cell id) problems else [])
  unfolding calculate_contest_problem_matrix states
  calculate-verdict page_user_ids all_user_ids id o =
      write_results-map states problems page_user_ids (λ user_id. []) id
      ∙ rw
          (map-agree problems states cell id (λ key h. states-cell id key o h) problems
            (has_key_self problems))
          refl

  -- For submissions in the order of time and distinct problems, the column of a problem counts the
  -- users whose verdict on it is so.
  pub calculate-column :
      (page_user_ids all_user_ids : List ℕ) (key : String)
      → is_ordered submissions ≡ true
      → IsDistinct same_key problems
      → is_key_of problems key ≡ true
      → (calculate_contest_problem_matrix u w problems submissions page_user_ids
            all_user_ids).totals.stats
          key
        ≡ record {
          contest_accepted = count_where (λ id. (cell id key).has_contest_ac) all_user_ids;
          contest_attempted = count_where (λ id. (cell id key).has_contest_submit) all_user_ids;
          upsolve_accepted = count_where (λ id. (cell id key).upsolve_ac) all_user_ids;
        }
  unfolding calculate_contest_problem_matrix states
  calculate-column page_user_ids all_user_ids key o d h =
      let agree : at_key states key ≡ at_key cell key = λ i id. states-cell id key o h i in
      column states all_user_ids problems no_totals key d h
      ∙ ground (
        arith,
        ap (λ f. count_where (λ id. (f id).has_contest_ac) all_user_ids) agree,
        ap (λ f. count_where (λ id. (f id).has_contest_submit) all_user_ids) agree,
        ap (λ f. count_where (λ id. (f id).upsolve_ac) all_user_ids) agree,
      )

  -- For submissions in the order of time, the row of a user among all users, each listed once,
  -- has the number of problems whose verdict is an acceptance in the contest, and the sum of their
  -- minutes and of 20 for each submission rejected before, both as `int32`.
  pub calculate-row :
      (page_user_ids all_user_ids : List ℕ) (id : ℕ)
      → is_ordered submissions ≡ true
      → IsDistinct same_id all_user_ids
      → mem id all_user_ids ≡ true
      → ((calculate_contest_problem_matrix u w problems submissions page_user_ids
              all_user_ids).totals.contest_ac_count_by_user
            id
          ≡ accepted_problems cell id problems % 4294967296)
        × ((calculate_contest_problem_matrix u w problems submissions page_user_ids
                all_user_ids).totals.penalty_by_user
              id
            ≡ penalty cell id problems % 4294967296)
  unfolding calculate_contest_problem_matrix states
  calculate-row page_user_ids all_user_ids id o d h =
      let agree : (key : String) → is_key_of problems key ≡ true → states id key ≡ cell id key =
        λ key k. states-cell id key o k in
      let both = row states all_user_ids problems no_totals id refl refl d h in
      (
        both.0
            ∙ ap (λ n. n % 4294967296)
                (accepted-agree problems states cell id agree problems (has_key_self problems)),
        both.1
            ∙ ap (λ n. n % 4294967296)
                (penalty-agree problems states cell id agree problems (has_key_self problems)),
      )

  -- The row of a user of the page, who is one of all users, each listed once, counts as many
  -- acceptances in the contest as its cells show, as an `int32`.
  pub calculate-agrees :
      (page_user_ids all_user_ids : List ℕ) (id : ℕ)
      → IsDistinct same_id all_user_ids
      → mem id page_user_ids ≡ true
      → mem id all_user_ids ≡ true
      → (calculate_contest_problem_matrix u w problems submissions page_user_ids
            all_user_ids).totals.contest_ac_count_by_user
          id
        ≡ count_where is_contest_ac (
            (calculate_contest_problem_matrix u w problems submissions page_user_ids
                all_user_ids).results_by_user
              id)
          % 4294967296
  unfolding calculate_contest_problem_matrix states
  calculate-agrees page_user_ids all_user_ids id d p h =
      (row states all_user_ids problems no_totals id refl refl d h).0
      ∙ ground (
        arith,
        p,
        write_results-map states problems page_user_ids (λ user_id. []) id,
        count-result_in states id problems,
      )
