-- ===== src/Contest/Address.antt =====
-- The addresses, indices and other names of a contest's problems
-- (app/core_data/internal/service/contest_matrix.go).
use Prim.Native.Char.{code}
use Prim.Native.String.{[], ◌∷◌, ◌++◌ as str_append}
use wust_algo_tracker.Prelude.{
  ℕ, String, Bool, true, false, not, ◌&&◌, ◌||◌, ◌==◌, leb, Option, none, some, List, ◌++◌,
  if◌then◌else◌,
}
use wust_algo_tracker.Text.{is_empty, trim_space, rune_count}
use wust_algo_tracker.Text.Unicode.{
  Unicode, map_runes, to_upper, equal_fold, strip_prefix, first_field,
}
use wust_algo_tracker.Text.Format.{decimal, letter, path_escape}

abbrev pub at_coder : String
at_coder = "AtCoder"

abbrev pub code_forces : String
code_forces = "CodeForces"

abbrev pub now_coder : String
now_coder = "NowCoder"

-- atCoderProblemURL
unfoldable pub at_coder_problem_url : String → String → String
unfolding trim_space path_escape
at_coder_problem_url contest_id task_id =
    let contest = trim_space contest_id in
    let task = trim_space task_id in
    if is_empty contest || is_empty task
    then ""
    else str_append "https://atcoder.jp/contests/"
        (str_append (path_escape contest) (str_append "/tasks/" (path_escape task)))

-- codeforcesProblemURLFromIndex
unfoldable pub codeforces_problem_url_from_index : String → String → String
unfolding trim_space path_escape
codeforces_problem_url_from_index contest_id index =
    let contest = trim_space contest_id in
    let problem = trim_space index in
    if is_empty contest || is_empty problem
    then ""
    else str_append "https://codeforces.com/contest/"
        (str_append (path_escape contest) (str_append "/problem/" (path_escape problem)))

-- nowCoderProblemURL
unfoldable pub now_coder_problem_url : String → String → String
unfolding trim_space path_escape
now_coder_problem_url contest_id index =
    let contest = trim_space contest_id in
    let problem = trim_space index in
    if is_empty contest || is_empty problem
    then ""
    else str_append "https://ac.nowcoder.com/acm/contest/"
        (str_append (path_escape contest) (str_append "/" (path_escape problem)))

-- `regexp.MustCompile("^[A-Za-z]+$")`
unfoldable letters_only : String → Bool
letters_only [] = true
letters_only (c ∷ s) =
    ((leb 65 (code c) && leb (code c) 90) || (leb 97 (code c) && leb (code c) 122))
    && letters_only s

abbrev first_of : Option String → String → String
first_of none s = s
first_of (some t) s = t

abbrev when : Bool → String → Option String
when true s = some s
when false s = none

module _ (u : Unicode) where
  -- isContestPlatform
  unfoldable pub is_contest_platform : String → String → Bool
  unfolding trim_space equal_fold
  is_contest_platform platform target = equal_fold u (trim_space platform) (trim_space target)

  -- problemURL
  unfoldable pub problem_url : String → String → String → String → String
  unfolding is_contest_platform trim_space at_coder_problem_url codeforces_problem_url_from_index
      now_coder_problem_url
  problem_url platform contest_id index key =
      if is_contest_platform platform at_coder
      then at_coder_problem_url contest_id
          (if is_empty (trim_space key) then trim_space index else trim_space key)
      else if is_contest_platform platform code_forces
      then codeforces_problem_url_from_index contest_id index
      else if is_contest_platform platform now_coder
      then now_coder_problem_url contest_id index
      else ""

  -- nowCoderProblemAliases
  unfoldable pub now_coder_problem_aliases : String → String → List String
  unfolding trim_space map_runes
  now_coder_problem_aliases raw_index raw_title =
      let index = trim_space raw_index in
      let title = trim_space raw_title in
      (if is_empty index then List.[] else List.◌∷◌ index (List.◌∷◌ (to_upper u index) List.[]))
      ++ (if is_empty title
          then List.[]
          else List.◌∷◌ title (
              if is_empty index
              then List.[]
              else List.◌∷◌ (str_append index (str_append " " title))
                  (List.◌∷◌ (str_append (to_upper u index) (str_append " " title)) List.[])))

  -- The suffix of an AtCoder task, where it is one of letters only.
  unfoldable pub at_coder_index : String → String → Option String
  unfolding strip_prefix letters_only map_runes
  at_coder_index contest problem = elim (strip_prefix (str_append contest "_") problem) [
    | none ↦ none
    | some suffix ↦ when (not (is_empty suffix) && letters_only suffix) (to_upper u suffix)
  ]

  -- What stands first in a Codeforces problem after its contest.
  unfoldable pub codeforces_index : String → String → Option String
  unfolding strip_prefix trim_space first_field
  codeforces_index contest problem = elim (strip_prefix (str_append contest "-") problem) [
    | none ↦ none
    | some suffix ↦ when (not (is_empty (trim_space suffix))) (first_field (trim_space suffix))
  ]

  -- deriveProblemIndex
  unfoldable pub derive_problem_index : String → String → String → ℕ → String
  unfolding is_contest_platform at_coder_index codeforces_index trim_space first_field letter
      rune_count
  derive_problem_index platform contest_id raw_problem fallback =
      let problem = trim_space raw_problem in
      let contest = trim_space contest_id in
      let field = first_field problem in
      let plain =
        if not (is_empty field) && leb (rune_count field) 4 then field else letter fallback in
      let codeforces =
        if is_contest_platform platform code_forces && not (is_empty contest)
        then first_of (codeforces_index contest problem) plain
        else plain in
      if is_contest_platform platform at_coder && not (is_empty contest)
      then first_of (at_coder_index contest problem) codeforces
      else codeforces

-- codeforcesMatrixProblem
pub record CodeforcesMatrixProblem : Type 0 where
  pub contest_id : ℕ
  pub problemset_name : String
  pub index : String
  pub name : String

abbrev problem_contest_id : String → CodeforcesMatrixProblem → String
problem_contest_id contest_id problem =
    if problem.contest_id == 0 then trim_space contest_id else decimal problem.contest_id

-- codeforcesProblemURL
unfoldable pub codeforces_problem_url : String → CodeforcesMatrixProblem → String
unfolding codeforces_problem_url_from_index trim_space decimal
codeforces_problem_url contest_id problem =
    codeforces_problem_url_from_index (problem_contest_id contest_id problem) problem.index

-- `strings.Join(parts, "-")` of the parts that are not empty
abbrev join_dash : String → String → String
join_dash [] t = t
join_dash (c ∷ s) [] = c ∷ s
join_dash (c ∷ s) (d ∷ t) = str_append (c ∷ s) (str_append "-" (d ∷ t))

-- codeforcesMatrixProblemKey
unfoldable pub codeforces_matrix_problem_key : String → CodeforcesMatrixProblem → String
unfolding trim_space decimal
codeforces_matrix_problem_key contest_id problem =
    let name = trim_space problem.name in
    let prefix =
      join_dash (trim_space problem.problemset_name)
        (join_dash (problem_contest_id contest_id problem) (trim_space problem.index)) in
    if is_empty prefix
    then name
    else if is_empty name
    then prefix
    else str_append prefix (str_append " " name)
