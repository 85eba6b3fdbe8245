-- ===== src/Contest/Problems.antt =====
-- The problems of a contest (app/core_data/internal/service/contest_matrix.go): normalizeContestProblems,
-- synthesizeNowCoderProblems and codeforcesStandingsToMeta. The map `seen` of a loop has the keys of
-- the problems that the loop has collected.
pub mod Laws
pub mod Filler
use Prim.Native.String.{◌++◌ as str_append, compare}
use text.Mathlib.Text.{is_lt}
use wust_algo_tracker.Prelude.{
  ℕ, zero, suc, ◌+◌, ◌*◌, String, Bool, true, false, not, ◌&&◌, ◌||◌, ◌==◌, ltb, leb, Option, none,
  some, List, [], ◌∷◌, ◌++◌, any, length, str_eq, if◌then◌else◌,
}
use wust_algo_tracker.Prelude.Sorting.{slice_stable}
use wust_algo_tracker.Text.{is_empty, trim_space}
use wust_algo_tracker.Text.Unicode.{Unicode, to_upper, map_runes}
use wust_algo_tracker.Text.Format.{letter}
use wust_algo_tracker.Spider.Normalize.{SubmitLog}
use wust_algo_tracker.Contest.{ContestProblemMeta}
use wust_algo_tracker.Contest.Board.{raw_key, is_key_of}
use wust_algo_tracker.Contest.Address.{
  now_coder, code_forces, problem_url, derive_problem_index, now_coder_problem_url,
  now_coder_problem_aliases, CodeforcesMatrixProblem, codeforces_problem_url,
  codeforces_matrix_problem_key,
}

-- `if s == "" { s = t }`
abbrev pub or_else : String → String → String
or_else s t = if is_empty s then t else s

-- The end of the loops' bodies: a problem without a key, or with one seen before, is left out.
unfoldable pub add_problem :
    (ℕ → ContestProblemMeta) → List ContestProblemMeta → List ContestProblemMeta
unfolding any
add_problem problem problems =
    let p = problem (length problems) in
    if is_empty p.key || is_key_of problems p.key then problems else problems ++ p ∷ []

module _ (u : Unicode) where
  -- naturalProblemOrder
  unfoldable pub natural_problem_order : String → String → String → String → Bool
  unfolding trim_space map_runes
  natural_problem_order left_index right_index left_key right_key =
      let left = to_upper u (trim_space left_index) in
      let right = to_upper u (trim_space right_index) in
      if not (is_empty left) && (not (is_empty right) && not (str_eq left right))
      then is_lt (compare left right)
      else is_lt (compare left_key right_key)

  unfoldable pub less : ContestProblemMeta → ContestProblemMeta → Bool
  unfolding natural_problem_order
  less p q = natural_problem_order p.index q.index p.key q.key

  module _ (platform contest_id : String) where
    -- The assignments to a problem of the metadata, where n problems stand before it.
    unfoldable pub filled : ContestProblemMeta → ℕ → ContestProblemMeta
    unfolding trim_space derive_problem_index problem_url
    filled problem n =
        let key = trim_space problem.key in
        let index = or_else problem.index (derive_problem_index u platform contest_id key n) in
        let name = or_else problem.name key in
        record {
          key = key;
          index = index;
          name = name;
          url = or_else problem.url (problem_url u platform contest_id index key);
          aliases = problem.aliases ++ index ∷ name ∷ [];
        }

    -- The problem that a submission adds.
    unfoldable pub submitted : SubmitLog → ℕ → ContestProblemMeta
    unfolding raw_key derive_problem_index problem_url
    submitted sub n =
        let key = raw_key sub in
        let index = derive_problem_index u platform contest_id key n in
        record {
          key = key;
          index = index;
          name = key;
          url = problem_url u platform contest_id index key;
          aliases = [];
        }

    unfoldable pub add_metas :
        List ContestProblemMeta → List ContestProblemMeta → List ContestProblemMeta
    unfolding filled add_problem
    add_metas [] problems = problems
    add_metas (problem ∷ metas) problems = add_metas metas (add_problem (filled problem) problems)

    unfoldable pub add_submissions :
        List SubmitLog → List ContestProblemMeta → List ContestProblemMeta
    unfolding submitted add_problem
    add_submissions [] problems = problems
    add_submissions (sub ∷ submissions) problems =
        add_submissions submissions (add_problem (submitted sub) problems)

    unfoldable pub normalize_contest_problems :
        List ContestProblemMeta → List SubmitLog → List ContestProblemMeta
    unfolding add_metas add_submissions slice_stable less
    normalize_contest_problems metas submissions =
        let problems = add_submissions submissions (add_metas metas []) in
        if length metas == 0 then slice_stable less problems else problems

  module _ (contest_id : String) (total_count : ℕ) where
    unfoldable synthesized : SubmitLog → ℕ → ContestProblemMeta
    unfolding trim_space derive_problem_index now_coder_problem_url now_coder_problem_aliases
    synthesized sub n =
        let key = trim_space sub.problem in
        let index = derive_problem_index u now_coder contest_id key n in
        record {
          key = key;
          index = index;
          name = key;
          url = now_coder_problem_url contest_id index;
          aliases = now_coder_problem_aliases u index key;
        }

    -- The loop over the submissions, which stops when there are enough problems.
    unfoldable pub synthesize_submitted :
        List SubmitLog → List ContestProblemMeta → List ContestProblemMeta
    unfolding synthesized add_problem
    synthesize_submitted [] problems = problems
    synthesize_submitted (sub ∷ submissions) problems =
        let more = add_problem (synthesized sub) problems in
        let rest = synthesize_submitted submissions more in
        if not (length more == length problems) && leb total_count (length more) then more else rest

    -- The problem that stands for one of which nothing is known.
    unfoldable pub filler : ℕ → ContestProblemMeta
    unfolding letter now_coder_problem_url
    filler n =
        let index = letter n in
        record {
          key = str_append "__nowcoder_" (str_append contest_id (str_append "_" index));
          index = index;
          name = index;
          url = now_coder_problem_url contest_id index;
          aliases = index ∷ [];
        }

    -- The body of the loop over the missing problems; `continue` leaves all as it was.
    unfoldable pub fill_one : List ContestProblemMeta → List ContestProblemMeta
    unfolding filler any
    fill_one problems =
        let p = filler (length problems) in
        if is_key_of problems p.key then problems else problems ++ p ∷ []

    -- That loop, so many rounds of it at most; `none` where it has not ended.
    unfoldable pub fill : ℕ → List ContestProblemMeta → Option (List ContestProblemMeta)
    unfolding fill_one
    fill zero problems = if leb total_count (length problems) then some problems else none
    fill (suc fuel) problems =
        let rest = fill fuel (fill_one problems) in
        if leb total_count (length problems) then some problems else rest

    unfoldable pub synthesize_now_coder_problems :
        ℕ → List SubmitLog → Option (List ContestProblemMeta)
    unfolding synthesize_submitted fill
    synthesize_now_coder_problems fuel submissions =
        if total_count == 0 then some [] else fill fuel (synthesize_submitted submissions [])

  -- The problems of codeforcesStandingsToMeta.
  unfoldable pub codeforces_problems :
      String → List CodeforcesMatrixProblem → List ContestProblemMeta → List ContestProblemMeta
  unfolding codeforces_matrix_problem_key trim_space derive_problem_index codeforces_problem_url
  codeforces_problems contest_id [] metas = metas
  codeforces_problems contest_id (problem ∷ problems) metas =
      let key = codeforces_matrix_problem_key contest_id problem in
      let meta : ContestProblemMeta = record {
        key = key;
        index =
            or_else (trim_space problem.index)
              (derive_problem_index u code_forces contest_id key (length metas));
        name = or_else (trim_space problem.name) key;
        url = codeforces_problem_url contest_id problem;
        aliases = [];
      } in
      codeforces_problems contest_id problems (if is_empty key then metas else metas ++ meta ∷ [])
