-- ===== src/Contest/Problems/Laws.antt =====
-- The keys of the problems that normalizeContestProblems returns.
use wust_algo_tracker.Prelude.{
  ℕ, ◌≡◌, refl, ap, ◌∙◌, String, Bool, not, ◌&&◌, ◌||◌, ◌==◌, List, [], ◌∷◌, any, any-append,
  IsDistinct, snoc-IsDistinct, arith, str_eq, str_eq_iff, length, Bool-cases, inl, inr,
}
use wust_algo_tracker.Prelude.Sorting.{any-slice_stable, slice_stable-IsDistinct}
use wust_algo_tracker.Text.{is_empty, trim_space}
use wust_algo_tracker.Text.Unicode.{Unicode}
use wust_algo_tracker.Spider.Normalize.{SubmitLog}
use wust_algo_tracker.Contest.{ContestProblemMeta}
use wust_algo_tracker.Contest.Board.{raw_key, is_key_of}
use wust_algo_tracker.Contest.Board.Stats.{same_key}
use wust_algo_tracker.Contest.Problems.{
  filled, submitted, add_problem, add_metas, add_submissions, less, normalize_contest_problems,
}

same_key_sym : (p q : ContestProblemMeta) → same_key p q ≡ same_key q p
same_key_sym p q = ground (arith, str_eq_iff p.key q.key, str_eq_iff q.key p.key)

-- The problems have keys, no two the same.
abbrev pub has_key : ContestProblemMeta → Bool
has_key p = not (is_empty p.key)

add_problem-IsDistinct :
    (problem : ℕ → ContestProblemMeta) (ps : List ContestProblemMeta)
    → IsDistinct same_key ps
    → IsDistinct same_key (add_problem problem ps)
unfolding add_problem
add_problem-IsDistinct problem ps d =
    let p = problem (length ps) in
    elim (Bool-cases (is_empty p.key || is_key_of ps p.key)) [
      | inl e ↦ rw e d
      | inr e ↦ rw e (snoc-IsDistinct same_key ps p same_key_sym d (ground (arith)))
    ]

-- The keys after a problem is added: those before, and its own unless that is empty.
key-add_problem :
    (problem : ℕ → ContestProblemMeta) (ps : List ContestProblemMeta) (k own : String)
    → (problem (length ps)).key ≡ own
    → is_key_of (add_problem problem ps) k
      ≡ (is_key_of ps k || (not (is_empty own) && str_eq own k))
unfolding add_problem any
key-add_problem problem ps k own h =
    let p = problem (length ps) in
    elim (Bool-cases (is_empty p.key || is_key_of ps p.key)) [
      | inl e ↦ rw e (ground (arith, h, str_eq_iff own k))
      | inr e ↦ rw e (ground (arith, h, any-append (λ q. str_eq q.key k) ps (p ∷ [])))
    ]

abbrev pub is_meta_key : String → ContestProblemMeta → Bool
is_meta_key k problem = not (is_empty (trim_space problem.key)) && str_eq (trim_space problem.key) k

abbrev pub is_raw_key : String → SubmitLog → Bool
is_raw_key k sub = not (is_empty (raw_key sub)) && str_eq (raw_key sub) k

module _ (u : Unicode) (platform contest_id : String) where
  add_metas-keys :
      (metas ps : List ContestProblemMeta) (k : String)
      → IsDistinct same_key ps
      → IsDistinct same_key (add_metas u platform contest_id metas ps)
        × (is_key_of (add_metas u platform contest_id metas ps) k
            ≡ (is_key_of ps k || any (is_meta_key k) metas))
  unfolding add_metas any filled
  add_metas-keys [] ps k d = (d, ground (arith))
  add_metas-keys (m ∷ metas) ps k d =
      let next = add_problem (filled u platform contest_id m) ps in
      let rest =
        add_metas-keys metas next k
          (add_problem-IsDistinct (filled u platform contest_id m) ps d) in
      (
        rest.0,
        rest.1
            ∙ ground (
              arith,
              key-add_problem (filled u platform contest_id m) ps k (trim_space m.key) refl,
            ),
      )

  add_submissions-keys :
      (subs : List SubmitLog) (ps : List ContestProblemMeta) (k : String)
      → IsDistinct same_key ps
      → IsDistinct same_key (add_submissions u platform contest_id subs ps)
        × (is_key_of (add_submissions u platform contest_id subs ps) k
            ≡ (is_key_of ps k || any (is_raw_key k) subs))
  unfolding add_submissions any submitted
  add_submissions-keys [] ps k d = (d, ground (arith))
  add_submissions-keys (sub ∷ subs) ps k d =
      let problem = submitted u platform contest_id sub in
      let rest =
        add_submissions-keys subs (add_problem problem ps) k
          (add_problem-IsDistinct problem ps d) in
      (rest.0, rest.1 ∙ ground (arith, key-add_problem problem ps k (raw_key sub) refl))

  -- The problems have different keys, and those keys are, trimmed, the keys of the metadata and
  -- of the submissions, where they are not empty.
  pub normalize_contest_problems-keys :
      (metas : List ContestProblemMeta) (submissions : List SubmitLog) (k : String)
      → IsDistinct same_key (normalize_contest_problems u platform contest_id metas submissions)
        × (is_key_of (normalize_contest_problems u platform contest_id metas submissions) k
            ≡ (any (is_meta_key k) metas || any (is_raw_key k) submissions))
  unfolding normalize_contest_problems IsDistinct any
  normalize_contest_problems-keys metas submissions k =
      let first = add_metas-keys metas [] k tt in
      let both =
        add_submissions-keys submissions (add_metas u platform contest_id metas []) k first.0 in
      let keys = both.1 ∙ ap (λ b. b || any (is_raw_key k) submissions) first.1 in
      elim (Bool-cases (length metas == 0)) [
        | inl e ↦ rw e (
          slice_stable-IsDistinct (less u) same_key _ same_key_sym both.0,
          any-slice_stable (less u) (λ q. str_eq q.key k) _ ∙ keys,
        )
        | inr e ↦ rw e (both.0, keys)
      ]
