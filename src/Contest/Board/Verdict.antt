-- ===== src/Contest/Board/Verdict.antt =====
-- The rules of the board: what the submissions of one user to one problem are worth, read off the
-- two lists of those during the contest and those after it.
use wust_algo_tracker.Prelude.{
  ℕ, suc, ◌+◌, ◌%◌, ◌<◌, ◌≡◌, refl, ap, ◌∙◌, Bool, true, false, not, ◌&&◌, ◌||◌, Option, List, [],
  ◌∷◌, filter, arith, if◌then◌else◌, Bool-cases, inl, inr,
}
use wust_algo_tracker.Text.Unicode.{Unicode}
use wust_algo_tracker.Spider.Normalize.{SubmitLog}
use wust_algo_tracker.Contest.{before, add32}
use wust_algo_tracker.Contest.Status.{is_accepted_status}
use wust_algo_tracker.Contest.Board.{
  ProblemUserState, Window, elapsed_minute, in_contest, after_contest, contest_submit, upsolve,
  judge, zero_state,
}
use wust_algo_tracker.Contest.Board.Split.{judge_all}

abbrev pub is_during : Window → SubmitLog → Bool
is_during w sub = in_contest w sub.time

abbrev pub is_later : Window → SubmitLog → Bool
is_later w sub = not (in_contest w sub.time) && after_contest w sub.time

abbrev pub is_given : List SubmitLog → Bool
is_given [] = false
is_given (sub ∷ submissions) = true

-- No submission of the list is from before this time.
abbrev pub none_before : Option ℕ → List SubmitLog → Bool
none_before t [] = true
none_before t (sub ∷ submissions) = not (before sub.time t) && none_before t submissions

-- `ORDER BY time ASC`
abbrev pub is_ordered : List SubmitLog → Bool
is_ordered [] = true
is_ordered (sub ∷ submissions) = none_before sub.time submissions && is_ordered submissions

none_before-filter :
    (p : SubmitLog → Bool) (t : Option ℕ) (xs : List SubmitLog)
    → none_before t xs ≡ true
    → none_before t (filter p xs) ≡ true
unfolding filter
none_before-filter p t [] h = refl
none_before-filter p t (x ∷ xs) h = ground (arith, none_before-filter p t xs)

pub is_ordered-filter :
    (p : SubmitLog → Bool) (xs : List SubmitLog)
    → is_ordered xs ≡ true
    → is_ordered (filter p xs) ≡ true
unfolding filter
is_ordered-filter p [] h = refl
is_ordered-filter p (x ∷ xs) h =
    ground (arith, is_ordered-filter p xs, none_before-filter p x.time xs)

-- After the end no submission is during the contest.
filter-none_before :
    (w : Window) (t : Option ℕ) (xs : List SubmitLog)
    → after_contest w t ≡ true
    → none_before t xs ≡ true
    → filter (is_during w) xs ≡ []
unfolding filter
filter-none_before w t [] h k = refl
filter-none_before w t (x ∷ xs) h k = ground (arith, filter-none_before w t xs h)

module _ (u : Unicode) (w : Window) where
  -- Whether a submission is accepted, how many stand before the first that is, and its minute.
  unfoldable pub has_accepted : List SubmitLog → Bool
  unfolding is_accepted_status
  has_accepted [] = false
  has_accepted (sub ∷ submissions) = is_accepted_status u sub.status || has_accepted submissions

  unfoldable pub rejected_first : List SubmitLog → ℕ
  unfolding is_accepted_status
  rejected_first [] = 0
  rejected_first (sub ∷ submissions) =
      if is_accepted_status u sub.status then 0 else suc (rejected_first submissions)

  unfoldable pub first_minute : List SubmitLog → ℕ
  unfolding is_accepted_status elapsed_minute
  first_minute [] = 0
  first_minute (sub ∷ submissions) =
      if is_accepted_status u sub.status
      then elapsed_minute w.start sub.time
      else first_minute submissions

  -- What the submissions of a user to a problem are worth, given the two lists.
  unfoldable pub judged : List SubmitLog → List SubmitLog → ProblemUserState
  unfolding has_accepted rejected_first first_minute
  judged contest later = record {
    has_contest_submit = is_given contest;
    has_contest_ac = has_accepted contest;
    contest_minute = first_minute contest;
    wrong_before_ac = rejected_first contest % 4294967296;
    contest_wrong = rejected_first contest % 4294967296;
    upsolve_ac = not (has_accepted contest) && has_accepted later;
    upsolve_wrong = if has_accepted contest then 0 else rejected_first later % 4294967296;
  }

  unfoldable pub verdict : List SubmitLog → ProblemUserState
  unfolding judged filter
  verdict submissions = judged (filter (is_during w) submissions) (filter (is_later w) submissions)

  contest_all : List SubmitLog → ProblemUserState → ProblemUserState
  unfolding contest_submit is_accepted_status elapsed_minute
  contest_all [] s = s
  contest_all (sub ∷ submissions) s =
      contest_all submissions
        (contest_submit (is_accepted_status u sub.status) (elapsed_minute w.start sub.time) s)

  upsolve_all : List SubmitLog → ProblemUserState → ProblemUserState
  unfolding upsolve is_accepted_status
  upsolve_all [] s = s
  upsolve_all (sub ∷ submissions) s =
      upsolve_all submissions (upsolve (is_accepted_status u sub.status) s)

  -- In the order of time the loop first reads what is during the contest.
  judge_all-split :
      (xs : List SubmitLog) (s : ProblemUserState)
      → is_ordered xs ≡ true
      → judge_all u w xs s
        ≡ upsolve_all (filter (is_later w) xs) (contest_all (filter (is_during w) xs) s)
  unfolding judge_all filter contest_all upsolve_all judge
  judge_all-split [] s h = refl
  judge_all-split (x ∷ xs) s h = elim (Bool-cases (in_contest w x.time)) [
    | inl e ↦ rw e (judge_all-split xs _ (ground (arith)))
    | inr e ↦ elim (Bool-cases (after_contest w x.time)) [
      | inl a ↦
          rw (e, a)
            (ground (
              arith,
              judge_all-split xs (upsolve (is_accepted_status u x.status) s),
              filter-none_before w x.time xs a,
            ))
      | inr a ↦ rw (e, a) (judge_all-split xs s (ground (arith)))
    ]
  ]

  -- A state whose fields after the contest are still zero.
  abbrev open_state : Bool → Bool → ℕ → ℕ → ProblemUserState
  open_state b ac minute n = record {
    has_contest_submit = b;
    has_contest_ac = ac;
    contest_minute = minute;
    wrong_before_ac = n;
    contest_wrong = n;
    upsolve_ac = false;
    upsolve_wrong = 0;
  }

  contest_all-done :
      (xs : List SubmitLog) (m n : ℕ)
      → contest_all xs (open_state true true m n) ≡ open_state true true m n
  unfolding contest_all contest_submit
  contest_all-done [] m n = refl
  contest_all-done (x ∷ xs) m n = contest_all-done xs m n

  contest_all-open :
      (xs : List SubmitLog) (b : Bool) (n : ℕ)
      → n < 4294967296
      → contest_all xs (open_state b false 0 n)
        ≡ open_state
            (b || is_given xs)
            (has_accepted xs)
            (first_minute xs)
            ((n + rejected_first xs) % 4294967296)
  unfolding contest_all contest_submit has_accepted first_minute rejected_first add32
  contest_all-open [] b n h = ground (arith)
  contest_all-open (x ∷ xs) b n h = elim (Bool-cases (is_accepted_status u x.status)) [
    | inl e ↦ rw e (contest_all-done xs _ n ∙ ground (arith))
    | inr e ↦ rw e (ground (arith, contest_all-open xs true ((n + 1) % 4294967296)))
  ]

  upsolve_all-done :
      (xs : List SubmitLog) (s : ProblemUserState)
      → (s.has_contest_ac || s.upsolve_ac) ≡ true
      → upsolve_all xs s ≡ s
  unfolding upsolve_all upsolve
  upsolve_all-done [] s h = refl
  upsolve_all-done (x ∷ xs) s h = rw h (upsolve_all-done xs s h)

  abbrev after_state : Bool → ℕ → Bool → ℕ → ProblemUserState
  after_state b n ac k = record {
    has_contest_submit = b;
    has_contest_ac = false;
    contest_minute = 0;
    wrong_before_ac = n;
    contest_wrong = n;
    upsolve_ac = ac;
    upsolve_wrong = k;
  }

  upsolve_all-open :
      (xs : List SubmitLog) (b : Bool) (n k : ℕ)
      → k < 4294967296
      → upsolve_all xs (after_state b n false k)
        ≡ after_state b n (has_accepted xs) ((k + rejected_first xs) % 4294967296)
  unfolding upsolve_all upsolve has_accepted rejected_first add32
  upsolve_all-open [] b n k h = ground (arith)
  upsolve_all-open (x ∷ xs) b n k h = elim (Bool-cases (is_accepted_status u x.status)) [
    | inl e ↦ rw e (upsolve_all-done xs (after_state b n true k) refl ∙ ground (arith))
    | inr e ↦ rw e (ground (arith, upsolve_all-open xs b n ((k + 1) % 4294967296)))
  ]

  first_minute-none : (xs : List SubmitLog) → has_accepted xs ≡ false → first_minute xs ≡ 0
  unfolding has_accepted first_minute
  first_minute-none [] h = refl
  first_minute-none (x ∷ xs) h = ground (arith, first_minute-none xs)

  -- The two lists, one after the other.
  upsolve_all-contest_all :
      (contest later : List SubmitLog)
      → upsolve_all later (contest_all contest zero_state) ≡ judged contest later
  unfolding judged
  upsolve_all-contest_all contest later =
      ap (upsolve_all later) (contest_all-open contest false 0 (omega arith))
      ∙ elim (Bool-cases (has_accepted contest)) [
        | inl e ↦ rw e (upsolve_all-done later _ refl ∙ ground (arith))
        | inr e ↦
            rw (e, first_minute-none contest e)
              (upsolve_all-open later _ _ 0 (omega arith) ∙ ground (arith))
      ]

  -- The loop gives the verdict.
  pub judge_all-verdict :
      (xs : List SubmitLog) → is_ordered xs ≡ true → judge_all u w xs zero_state ≡ verdict xs
  unfolding verdict
  judge_all-verdict xs h =
      judge_all-split xs zero_state h
      ∙ upsolve_all-contest_all (filter (is_during w) xs) (filter (is_later w) xs)
