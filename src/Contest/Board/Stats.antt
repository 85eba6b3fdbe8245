-- ===== src/Contest/Board/Stats.antt =====
-- The columns and the rows of the board, as numbers of the states they count.
use wust_algo_tracker.Prelude.{
  ℕ, suc, ◌+◌, ◌*◌, ◌%◌, ◌<◌, String, ◌≡◌, refl, Bool, true, false, ◌==◌, List, [], ◌∷◌, any,
  count_where, IsDistinct, arith, str_eq, if◌then◌else◌, Bool-cases, inl, inr, ==_iff, str_eq_iff,
}
use wust_algo_tracker.Contest.{ContestProblemMeta, add32}
use wust_algo_tracker.Contest.Users.{mem}
use wust_algo_tracker.Contest.Users.Laws.{same_id}
use wust_algo_tracker.Contest.Board.{
  ProblemUserState, Totals, count_stat, count_cell, count_row, count_all, is_key_of,
}

abbrev pub same_key : ContestProblemMeta → ContestProblemMeta → Bool
same_key p q = str_eq q.key p.key

module _ (states : ℕ → String → ProblemUserState) where
  -- How many of a user's problems are accepted in the contest, and the penalty of them all.
  unfoldable pub accepted_problems : ℕ → List ContestProblemMeta → ℕ
  accepted_problems id [] = 0
  accepted_problems id (problem ∷ problems) =
      if (states id problem.key).has_contest_ac
      then suc (accepted_problems id problems)
      else accepted_problems id problems

  unfoldable pub penalty : ℕ → List ContestProblemMeta → ℕ
  penalty id [] = 0
  penalty id (problem ∷ problems) =
      let s = states id problem.key in
      if s.has_contest_ac
      then s.contest_minute + s.wrong_before_ac * 20 + penalty id problems
      else penalty id problems

  row-stats_other :
      (user_id : ℕ) (problems : List ContestProblemMeta) (t : Totals) (key : String)
      → is_key_of problems key ≡ false
      → (count_row states user_id problems t).stats key ≡ t.stats key
  unfolding count_row count_cell any
  row-stats_other user_id [] t key h = refl
  row-stats_other user_id (p ∷ problems) t key h = ground (
    arith,
    row-stats_other user_id problems (count_cell (states user_id p.key) user_id p.key t) key,
  )

  row-stats :
      (user_id : ℕ) (problems : List ContestProblemMeta) (t : Totals) (key : String)
      → IsDistinct same_key problems
      → is_key_of problems key ≡ true
      → (count_row states user_id problems t).stats key
        ≡ count_stat (states user_id key) (t.stats key)
  unfolding count_row count_cell any IsDistinct
  row-stats user_id [] t key d h = absurd (ground (arith))
  row-stats user_id (p ∷ problems) t key d h =
      let next = count_cell (states user_id p.key) user_id p.key t in
      let fresh : is_key_of problems p.key ≡ false = d.0 in
      elim (Bool-cases (str_eq p.key key)) [
        | inl e ↦
            ground (arith, str_eq_iff p.key key, row-stats_other user_id problems next p.key fresh)
        | inr e ↦ ground (arith, row-stats user_id problems next key d.1)
      ]

  row-count :
      (user_id id : ℕ) (problems : List ContestProblemMeta) (t : Totals)
      → t.contest_ac_count_by_user id < 4294967296
      → (count_row states user_id problems t).contest_ac_count_by_user id ≡ (
          if user_id == id
          then (t.contest_ac_count_by_user id + accepted_problems id problems) % 4294967296
          else t.contest_ac_count_by_user id)
  unfolding count_row count_cell accepted_problems add32
  row-count user_id id [] t h = ground (arith)
  row-count user_id id (p ∷ problems) t h = ground (
    arith,
    ==_iff user_id id,
    row-count user_id id problems (count_cell (states user_id p.key) user_id p.key t),
  )

  row-penalty :
      (user_id id : ℕ) (problems : List ContestProblemMeta) (t : Totals)
      → t.penalty_by_user id < 4294967296
      → (count_row states user_id problems t).penalty_by_user id ≡ (
          if user_id == id
          then (t.penalty_by_user id + penalty id problems) % 4294967296
          else t.penalty_by_user id)
  unfolding count_row count_cell penalty add32
  row-penalty user_id id [] t h = ground (arith)
  row-penalty user_id id (p ∷ problems) t h = ground (
    arith,
    ==_iff user_id id,
    row-penalty user_id id problems (count_cell (states user_id p.key) user_id p.key t),
  )

  -- What the loops over all users and problems count for a problem.
  pub column :
      (user_ids : List ℕ) (problems : List ContestProblemMeta) (t : Totals) (key : String)
      → IsDistinct same_key problems
      → is_key_of problems key ≡ true
      → (count_all states problems user_ids t).stats key ≡ record {
        contest_accepted =
            (t.stats key).contest_accepted
            + count_where (λ id. (states id key).has_contest_ac) user_ids;
        contest_attempted =
            (t.stats key).contest_attempted
            + count_where (λ id. (states id key).has_contest_submit) user_ids;
        upsolve_accepted =
            (t.stats key).upsolve_accepted
            + count_where (λ id. (states id key).upsolve_ac) user_ids;
      }
  unfolding count_all count_where count_stat
  column [] problems t key d h = ground (arith)
  column (id ∷ user_ids) problems t key d h =
      let next = count_row states id problems t in
      rw (column user_ids problems next key d h, row-stats id problems t key d h) (ground (arith))

  -- Of a user that is not among those counted.
  row_other :
      (user_ids : List ℕ) (problems : List ContestProblemMeta) (t : Totals) (id : ℕ)
      → t.contest_ac_count_by_user id < 4294967296
      → t.penalty_by_user id < 4294967296
      → mem id user_ids ≡ false
      → ((count_all states problems user_ids t).contest_ac_count_by_user id
          ≡ t.contest_ac_count_by_user id)
        × ((count_all states problems user_ids t).penalty_by_user id ≡ t.penalty_by_user id)
  unfolding count_all any
  row_other [] problems t id b c h = (refl, refl)
  row_other (user_id ∷ user_ids) problems t id b c h = ground (
    arith,
    row-count user_id id problems t b,
    row-penalty user_id id problems t c,
    ==_iff user_id id,
    ==_iff id user_id,
    row_other user_ids problems (count_row states user_id problems t) id,
  )

  -- What they count for a user.
  pub row :
      (user_ids : List ℕ) (problems : List ContestProblemMeta) (t : Totals) (id : ℕ)
      → t.contest_ac_count_by_user id ≡ 0
      → t.penalty_by_user id ≡ 0
      → IsDistinct same_id user_ids
      → mem id user_ids ≡ true
      → ((count_all states problems user_ids t).contest_ac_count_by_user id
          ≡ accepted_problems id problems % 4294967296)
        × ((count_all states problems user_ids t).penalty_by_user id
            ≡ penalty id problems % 4294967296)
  unfolding count_all any IsDistinct
  row [] problems t id b c d h = absurd (ground (arith))
  row (user_id ∷ user_ids) problems t id b c d h =
      let next = count_row states user_id problems t in
      let count = row-count user_id id problems t (omega (arith, b)) in
      let total = row-penalty user_id id problems t (omega (arith, c)) in
      elim (Bool-cases (user_id == id)) [
        | inl e ↦ ground (
          arith,
          ==_iff user_id id,
          count,
          total,
          d.0,
          b,
          c,
          row_other user_ids problems next id (ground (arith, count, e, b))
              (ground (arith, total, e, c)),
        )
        | inr e ↦ ground (
          arith,
          ==_iff user_id id,
          ==_iff id user_id,
          count,
          total,
          row user_ids problems next id,
          d.1,
        )
      ]
