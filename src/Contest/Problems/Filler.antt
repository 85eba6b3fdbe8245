-- ===== src/Contest/Problems/Filler.antt =====
-- The loop of synthesizeNowCoderProblems over the problems of which nothing is known: their 26
-- letters come round again, and then it does not end.
use wust_algo_tracker.Prelude.{
  ℕ, zero, suc, ◌+◌, ◌%◌, ◌<◌, ◌≤◌, ◌≡◌, refl, String, true, none, List, [], ◌∷◌, any, any-append,
  arith, str_eq, str_eq_iff, length, length-append, if◌then◌else◌,
}
use wust_algo_tracker.Text.Format.{letter}
use wust_algo_tracker.Text.Unicode.{Unicode}
use wust_algo_tracker.Contest.{ContestProblemMeta}
use wust_algo_tracker.Contest.Board.{is_key_of}
use wust_algo_tracker.Contest.Problems.{filler, fill_one, fill}

letter-period : (n : ℕ) → letter (n + 26) ≡ letter n
unfolding letter
letter-period n = let e : (n + 26) % 26 ≡ n % 26 = omega arith in rw e refl

module _ (u : Unicode) (contest_id : String) (total_count : ℕ) where
  filler-period :
      (n : ℕ)
      → (filler u contest_id total_count (n + 26)).key ≡ (filler u contest_id total_count n).key
  unfolding filler
  filler-period n = rw (letter-period n) refl

  -- One round keeps the keys.
  fill_one-keys :
      (ps : List ContestProblemMeta) (k : String)
      → is_key_of ps k ≡ true
      → is_key_of (fill_one u contest_id total_count ps) k ≡ true
  unfolding fill_one
  fill_one-keys ps k h =
      let p = filler u contest_id total_count (length ps) in
      ground (arith, any-append (λ q. str_eq q.key k) ps (p ∷ []))

  -- And has the key that it looked for.
  fill_one-own :
      (ps : List ContestProblemMeta)
      → is_key_of
          (fill_one u contest_id total_count ps)
          (filler u contest_id total_count (length ps)).key
        ≡ true
  unfolding fill_one any
  fill_one-own ps =
      let p = filler u contest_id total_count (length ps) in
      ground (arith, any-append (λ q. str_eq q.key p.key) ps (p ∷ []), str_eq_iff p.key p.key)

  -- It adds a problem, or changes nothing.
  fill_one-length :
      (ps : List ContestProblemMeta)
      → length (fill_one u contest_id total_count ps) ≡ (
          if is_key_of ps (filler u contest_id total_count (length ps)).key
          then length ps
          else suc (length ps))
  unfolding fill_one
  fill_one-length ps =
      let p = filler u contest_id total_count (length ps) in
      ground (arith, length-append ps (p ∷ []))

  fill-stays :
      (fuel n : ℕ) (ps : List ContestProblemMeta)
      → is_key_of ps (filler u contest_id total_count n).key ≡ true
      → length ps ≤ n + 26
      → n + 26 < total_count
      → fill u contest_id total_count fuel ps ≡ none
  unfolding fill
  fill-stays zero n ps h k t = ground (arith, k, t)
  fill-stays (suc fuel) n ps h k t =
      let next = fill_one u contest_id total_count ps in
      let here = fill-stays fuel n next (fill_one-keys ps _ h) in
      ground (arith, k, t, here, fill_one-length ps, filler-period n)

  -- Where more than 26 problems are missing, no number of rounds ends the loop.
  pub fill-never :
      (fuel : ℕ) (ps : List ContestProblemMeta)
      → length ps + 26 < total_count
      → fill u contest_id total_count fuel ps ≡ none
  unfolding fill
  fill-never zero ps t = ground (arith, t)
  fill-never (suc fuel) ps t =
      let next = fill_one u contest_id total_count ps in
      let later = fill-stays fuel (length ps) next (fill_one-own ps) in
      ground (arith, t, later, fill_one-length ps)
