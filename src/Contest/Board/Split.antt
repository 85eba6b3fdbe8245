-- ===== src/Contest/Board/Split.antt =====
-- The states after the loop over the submissions: each is what the submissions of its user and
-- problem make of it, those during the contest first.
use wust_algo_tracker.Prelude.{
  ℕ, String, ◌≡◌, refl, ap, ◌∙◌, Bool, true, ◌&&◌, ◌==◌, List, [], ◌∷◌, filter, arith, str_eq,
  if◌then◌else◌, Bool-cases, inl, inr, ==_iff, str_eq_iff,
}
use wust_algo_tracker.Text.Unicode.{Unicode}
use wust_algo_tracker.Spider.Normalize.{SubmitLog}
use wust_algo_tracker.Contest.{ContestProblemMeta}
use wust_algo_tracker.Contest.Board.{
  ProblemUserState, Window, judge, key_of, is_key_of, put, read_submissions,
}

module _ (u : Unicode) where
  abbrev pub is_own : List (String × String) → ℕ → String → SubmitLog → Bool
  is_own aliases user_id key sub = (sub.user_id == user_id) && str_eq (key_of u aliases sub) key

  -- The submissions of a user to a problem.
  unfoldable pub own : List (String × String) → ℕ → String → List SubmitLog → List SubmitLog
  unfolding filter
  own aliases user_id key submissions = filter (is_own aliases user_id key) submissions

  module _ (w : Window) where
    unfoldable pub judge_all : List SubmitLog → ProblemUserState → ProblemUserState
    unfolding judge
    judge_all [] s = s
    judge_all (sub ∷ submissions) s = judge_all submissions (judge u w sub s)

    -- The states after one submission.
    unfoldable next :
        List ContestProblemMeta
        → String
        → SubmitLog
        → (ℕ → String → ProblemUserState)
        → ℕ
        → String
        → ProblemUserState
    unfolding judge
    next problems k sub states =
        if is_key_of problems k
        then put sub.user_id k (judge u w sub (states sub.user_id k)) states
        else states

    next-own :
        (problems : List ContestProblemMeta) (k : String) (sub : SubmitLog)
        (states : ℕ → String → ProblemUserState) (user_id : ℕ) (key : String)
        → is_key_of problems key ≡ true
        → next problems k sub states user_id key ≡ (
            if (sub.user_id == user_id) && str_eq k key
            then judge u w sub (states user_id key)
            else states user_id key)
    unfolding next
    next-own problems k sub states user_id key h =
        ground (arith, ==_iff sub.user_id user_id, str_eq_iff k key)

    -- Other users and other problems have no part in a state.
    pub read_submissions-own :
        (problems : List ContestProblemMeta) (aliases : List (String × String))
        (submissions : List SubmitLog) (states : ℕ → String → ProblemUserState) (user_id : ℕ)
        (key : String)
        → is_key_of problems key ≡ true
        → read_submissions u w problems aliases submissions states user_id key
          ≡ judge_all (own aliases user_id key submissions) (states user_id key)
    unfolding read_submissions own filter judge_all next
    read_submissions-own problems aliases [] states user_id key h = refl
    read_submissions-own problems aliases (sub ∷ submissions) states user_id key h =
        let k = key_of u aliases sub in
        let rest =
          read_submissions-own problems aliases submissions (next problems k sub states) user_id key
            h in
        elim (Bool-cases (is_own aliases user_id key sub)) [
          | inl e ↦ rw e (
              rest
              ∙ ap (judge_all (own aliases user_id key submissions))
                  (next-own problems k sub states user_id key h ∙ rw e refl))
          | inr e ↦ rw e (
              rest
              ∙ ap (judge_all (own aliases user_id key submissions))
                  (next-own problems k sub states user_id key h ∙ rw e refl))
        ]
