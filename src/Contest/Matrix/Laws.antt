-- ===== src/Contest/Matrix/Laws.antt =====
-- The matrix of a contest: its submissions in order, its columns, and that no submission is lost.
use wust_algo_tracker.Prelude.{
  ℕ, ◌≡◌, refl, ap, ◌∙◌, String, true, false, not, ◌&&◌, Option, List, [], ◌∷◌, map, all, any,
  filter, count_where, arith, str_eq, str_eq_iff,
}
use wust_algo_tracker.Prelude.Sorting.{slice_stable, IsSorted, slice_stable-IsSorted}
use wust_algo_tracker.Text.{is_empty, trim_space}
use wust_algo_tracker.Text.Laws.{trim_space_idem}
use wust_algo_tracker.Text.Unicode.{Unicode}
use wust_algo_tracker.Spider.Normalize.{SubmitLog}
use wust_algo_tracker.Contest.{ContestProblemMeta, before}
use wust_algo_tracker.Contest.Alias.{build_problem_alias_map}
use wust_algo_tracker.Contest.Alias.Laws.{is_to, canonical_problem_key-to}
use wust_algo_tracker.Contest.Board.{Window, ProblemUserState, raw_key, key_of, is_key_of}
use wust_algo_tracker.Contest.Board.Verdict.{none_before, is_ordered}
use wust_algo_tracker.Contest.Board.Laws.{has_key_in, has_key_self, cell, calculate-column}
use wust_algo_tracker.Contest.Problems.{normalize_contest_problems}
use wust_algo_tracker.Contest.Problems.Laws.{
  is_meta_key, is_raw_key, normalize_contest_problems-keys,
}
use wust_algo_tracker.Contest.Matrix.{
  ProblemColumn, Setting, is_window, is_on, column_of, earlier, load_contest_submissions,
  draw_matrix,
}

earlier_trans :
    (x y z : SubmitLog) → earlier y x ≡ false → earlier z y ≡ false → earlier z x ≡ false
earlier_trans x y z h k = ground arith

earlier-asym : (x y : SubmitLog) → earlier y x ≡ true → earlier x y ≡ false
earlier-asym x y h = ground arith

none_before-all :
    (x : SubmitLog) (xs : List SubmitLog)
    → all (λ y. not (earlier y x)) xs ≡ true
    → none_before x.time xs ≡ true
unfolding all
none_before-all x [] h = refl
none_before-all x (y ∷ xs) h = ground (arith, none_before-all x xs)

is_ordered-IsSorted : (xs : List SubmitLog) → IsSorted earlier xs → is_ordered xs ≡ true
unfolding IsSorted
is_ordered-IsSorted [] s = refl
is_ordered-IsSorted (x ∷ xs) s =
    ground (arith, none_before-all x xs s.0, is_ordered-IsSorted xs s.1)

is_ordered-slice_stable : (xs : List SubmitLog) → is_ordered (slice_stable earlier xs) ≡ true
is_ordered-slice_stable xs =
    is_ordered-IsSorted _ (slice_stable-IsSorted earlier earlier_trans earlier-asym xs)

-- The submissions that are loaded stand in the order of time, by whichever query.
pub load_contest_submissions-is_ordered :
    (u : Unicode) (table : List SubmitLog) (platform contest_id : String) (user_ids : List ℕ)
    (start end : Option ℕ)
    → is_ordered (load_contest_submissions u table platform contest_id user_ids start end) ≡ true
unfolding load_contest_submissions
load_contest_submissions-is_ordered u table platform contest_id user_ids start end =
    let kept =
      filter (λ sub. is_on u platform user_ids sub && str_eq sub.contest contest_id) table in
    let inside =
      filter
        (λ sub.
          is_on u platform user_ids sub && (not (before sub.time start) && before sub.time end))
        table in
    ground (arith, is_ordered-slice_stable kept, is_ordered-slice_stable inside)

meta_key-trimmed :
    (k : String) (metas : List ContestProblemMeta)
    → any (is_meta_key k) metas ≡ true
    → trim_space k ≡ k
unfolding any
meta_key-trimmed k [] h = absurd (ground arith)
meta_key-trimmed k (m ∷ metas) h =
    ground (arith, str_eq_iff (trim_space m.key) k, trim_space_idem m.key, meta_key-trimmed k metas)

trim_space-raw_key : (sub : SubmitLog) → trim_space (raw_key sub) ≡ raw_key sub
unfolding raw_key
trim_space-raw_key sub = ground (arith, trim_space_idem sub.problem, trim_space_idem sub.submit_id)

raw_key-trimmed :
    (k : String) (subs : List SubmitLog) → any (is_raw_key k) subs ≡ true → trim_space k ≡ k
unfolding any
raw_key-trimmed k [] h = absurd (ground arith)
raw_key-trimmed k (sub ∷ subs) h =
    ground (arith, str_eq_iff (raw_key sub) k, trim_space-raw_key sub, raw_key-trimmed k subs)

module _ (u : Unicode) (platform contest_id : String) (metas : List ContestProblemMeta)
    (submissions : List SubmitLog) where
  problems : List ContestProblemMeta
  unfolding normalize_contest_problems
  problems = normalize_contest_problems u platform contest_id metas submissions

  key-trimmed : (k : String) → is_key_of problems k ≡ true → trim_space k ≡ k
  unfolding problems
  key-trimmed k h =
      let keys = (normalize_contest_problems-keys u platform contest_id metas submissions k).1 in
      ground (arith, keys, h, meta_key-trimmed k metas, raw_key-trimmed k submissions)

  all-is_to :
      (ps : List ContestProblemMeta)
      → all (has_key_in problems) ps ≡ true
      → all (is_to u (is_key_of problems)) ps ≡ true
  unfolding all
  all-is_to [] h = refl
  all-is_to (p ∷ ps) h = ground (arith, key-trimmed p.key, all-is_to ps)

  -- A submission that shares its key with one of the submissions, and has one, belongs to a column,
  -- whatever other names the problems have.
  pub normalize_contest_problems-covers :
      (sub : SubmitLog)
      → any (is_raw_key (raw_key sub)) submissions ≡ true
      → is_empty (raw_key sub) ≡ false
      → is_key_of (normalize_contest_problems u platform contest_id metas submissions) (
          key_of u
            (build_problem_alias_map u
              (normalize_contest_problems u platform contest_id metas submissions))
            sub)
        ≡ true
  unfolding key_of problems
  normalize_contest_problems-covers sub h e =
      let keys =
        (normalize_contest_problems-keys u platform contest_id metas submissions (raw_key sub)).1 in
      let trimmed = trim_space-raw_key sub in
      canonical_problem_key-to u (is_key_of problems) problems (raw_key sub)
        (all-is_to problems (has_key_self problems)) (ap is_empty trimmed ∙ e)
        (ap (is_key_of problems) trimmed ∙ ground (arith, keys, h))

  -- The verdict on a user's submissions to a problem, in the contest's window.
  abbrev pub state_of : Setting → ℕ → String → ProblemUserState
  state_of s id key =
      let w : Window = record {
        start = s.start;
        end = s.end;
        is_reliable = is_window s.start s.end;
      } in
      cell u w (normalize_contest_problems u platform contest_id metas submissions) submissions id
        key

  -- The column of a problem that counts the users by these verdicts.
  abbrev pub counted : Setting → List ℕ → ContestProblemMeta → ProblemColumn
  counted s all_user_ids problem = column_of problem record {
    contest_accepted = count_where (λ id. (state_of s id problem.key).has_contest_ac) all_user_ids;
    contest_attempted =
        count_where (λ id. (state_of s id problem.key).has_contest_submit) all_user_ids;
    upsolve_accepted = count_where (λ id. (state_of s id problem.key).upsolve_ac) all_user_ids;
  }

  map-on_keys :
      (f g : ContestProblemMeta → ProblemColumn) (ps : List ContestProblemMeta)
      → ((p : ContestProblemMeta) → is_key_of problems p.key ≡ true → f p ≡ g p)
      → all (has_key_in problems) ps ≡ true
      → map f ps ≡ map g ps
  unfolding all
  map-on_keys f g [] e h = refl
  map-on_keys f g (p ∷ ps) e h = ground (arith, e p, map-on_keys f g ps e)

  -- For submissions in the order of time, the matrix has a column for each problem that
  -- normalizeContestProblems returns, in that order, and each counts the users whose verdict on its
  -- problem is so, as an `int32`.
  pub draw_matrix-columns :
      (s : Setting) (page_user_ids all_user_ids : List ℕ)
      → is_ordered submissions ≡ true
      → (draw_matrix u platform contest_id s metas submissions page_user_ids all_user_ids).problems
        ≡ map
            (counted s all_user_ids)
            (normalize_contest_problems u platform contest_id metas submissions)
  unfolding draw_matrix problems
  draw_matrix-columns s page_user_ids all_user_ids o =
      let w : Window = record {
        start = s.start;
        end = s.end;
        is_reliable = is_window s.start s.end;
      } in
      let distinct =
        (normalize_contest_problems-keys u platform contest_id metas submissions "").0 in
      map-on_keys _ (counted s all_user_ids) problems
        (λ p h.
          ap (column_of p) (
            calculate-column u w problems submissions page_user_ids all_user_ids p.key o distinct
              h))
        (has_key_self problems)
