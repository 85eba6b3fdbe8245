-- ===== src/Contest/Ranking/Laws.antt =====
-- The order of the list of users and its pages.
use wust_algo_tracker.Prelude.{
  ℕ, suc, zero, ◌≢◌, ◌+◌, ◌-◌, ◌<◌, ◌≤◌, ◌≡◌, ◌↔◌, refl, sym, ap, ◌∙◌, String, Bool, true, false,
  none, some, List, [], ◌∷◌, filter, count_where, length, arith,
}
use wust_algo_tracker.Prelude.Sorting.{
  slice_stable, IsSorted, slice_stable-sorted, slice_stable-IsSorted, count-slice_stable,
}
use wust_algo_tracker.Contest.{ContestLog}
use wust_algo_tracker.Contest.Ranking.{
  ℤ, non_negative, positive_or, limited, add64, less, sort_contest_logs, drop, take, slice,
  paginate_contest_logs, sql_less, is_of, get_contest_participants, get_contest_ranking,
}

less_trans : (x y z : ContestLog) → less y x ≡ false → less z y ≡ false → less z x ≡ false
unfolding less
less_trans x y z h k = ground arith

less-asym : (x y : ContestLog) → less y x ≡ true → less x y ≡ false
unfolding less
less-asym x y h = ground arith

less-sql : (x y : ContestLog) → less x y ≡ sql_less x y
unfolding less sql_less
less-sql x y = ground arith

-- The list has the rows it was given, and no row stands before one that is less.
pub sort_contest_logs-IsSorted :
    (logs : List ContestLog) (p : ContestLog → Bool)
    → IsSorted less (sort_contest_logs logs)
      × (count_where p (sort_contest_logs logs) ≡ count_where p logs)
unfolding sort_contest_logs
sort_contest_logs-IsSorted logs p =
    (slice_stable-IsSorted less less_trans less-asym logs, count-slice_stable less p logs)

take_all : (n : ℕ) (logs : List ContestLog) → length logs ≤ n → take n logs ≡ logs
unfolding take
take_all zero [] h = refl
take_all zero (x ∷ logs) h = absurd (omega (arith, h))
take_all (suc n) [] h = refl
take_all (suc n) (x ∷ logs) h = ap (◌∷◌ x) (take_all n logs (omega (arith, h)))

length-drop : (n : ℕ) (logs : List ContestLog) → length (drop n logs) ≡ length logs - n
unfolding drop
length-drop zero logs = omega arith
length-drop (suc n) [] = omega arith
length-drop (suc n) (x ∷ logs) = length-drop n logs ∙ omega arith

drop_all : (n : ℕ) (logs : List ContestLog) → length logs ≤ n → drop n logs ≡ []
unfolding drop
drop_all zero [] h = refl
drop_all zero (x ∷ logs) h = absurd (omega (arith, h))
drop_all (suc n) [] h = refl
drop_all (suc n) (x ∷ logs) h = drop_all n logs (omega (arith, h))

take-nil : (n : ℕ) → take n [] ≡ []
unfolding take
take-nil zero = refl
take-nil (suc n) = refl

-- A page of the list: the rows from the offset on, as many as the size.
paginate_contest_logs-page :
    (logs : List ContestLog) (offset limit : ℤ)
    → non_negative offset + positive_or limit (length logs) < 9223372036854775808
    → paginate_contest_logs logs offset limit
      ≡ some (take (positive_or limit (length logs)) (drop (non_negative offset) logs))
unfolding paginate_contest_logs slice add64
paginate_contest_logs-page logs offset limit h = ground (
  arith,
  h,
  length-drop (non_negative offset) logs,
  drop_all (non_negative offset) logs,
  take-nil (positive_or limit (length logs)),
  take_all (positive_or limit (length logs)) (drop (non_negative offset) logs),
  take_all (length logs - non_negative offset) (drop (non_negative offset) logs),
)

-- Whatever the offset and the limit, negative ones and 0 included: the slice is in bounds unless the
-- offset lies in the list and an `int64` does not hold the sum of the two, where a negative
-- offset counts as 0, and a limit below 1 as the length. That offset and limit are each an `int64`.
pub paginate_contest_logs-panics :
    (logs : List ContestLog) (offset limit : ℤ)
    → non_negative offset < 9223372036854775808
    → positive_or limit (length logs) < 9223372036854775808
    → (paginate_contest_logs logs offset limit ≡ none) ↔ (
        (non_negative offset < length logs)
        × (9223372036854775808 ≤ non_negative offset + positive_or limit (length logs)))
unfolding paginate_contest_logs slice add64
paginate_contest_logs-panics logs offset limit h k = ground (arith, h, k)

sort-sql :
    (logs : List ContestLog)
    → sort_contest_logs (slice_stable sql_less logs) ≡ slice_stable sql_less logs
unfolding sort_contest_logs
sort-sql logs =
    let e : less ≡ sql_less = λ i x y. less-sql x y i in
    ap (λ f. slice_stable less (slice_stable f logs)) (sym e)
    ∙ slice_stable-sorted less (slice_stable less logs)
        (slice_stable-IsSorted less less_trans less-asym logs)
    ∙ ap (λ f. slice_stable f logs) e

length-count : (logs : List ContestLog) → count_where (λ l. true) logs ≡ length logs
unfolding count_where
length-count [] = refl
length-count (x ∷ logs) = ap suc (length-count logs)

-- The rows of a limit other than 0.
limited-take :
    (limit : ℤ) (m : ℕ) (rows : List ContestLog)
    → limit ≢ ℤ.pos 0
    → length rows ≤ m
    → limited limit rows ≡ take (positive_or limit m) rows
unfolding limited
limited-take (ℤ.pos zero) m rows nz h = absurd (nz refl)
limited-take (ℤ.pos (suc n)) m rows nz h = refl
limited-take (ℤ.negsuc n) m rows nz h = sym (take_all m rows h)

-- The two ways to a page agree, for a limit other than 0: the rows that GetContestRanking finds for an
-- offset and a limit are those that paginateContestLogs cuts out of the sorted participants, and the
-- totals are the same. The offset, or 0 for a negative one, and the limit, or the number of
-- participants for a negative one, have a sum that an `int64` holds.
pub get_contest_ranking-paginate :
    (table : List ContestLog) (contest_id platform : String) (user_ids : List ℕ) (offset limit : ℤ)
    → limit ≢ ℤ.pos 0
    → non_negative offset
        + positive_or limit (length (get_contest_participants table contest_id platform user_ids))
      < 9223372036854775808
    → (paginate_contest_logs
          (sort_contest_logs (get_contest_participants table contest_id platform user_ids))
          offset
          limit
        ≡ some (get_contest_ranking table contest_id platform offset limit user_ids).0)
      × (length (get_contest_participants table contest_id platform user_ids)
          ≡ (get_contest_ranking table contest_id platform offset limit user_ids).1)
unfolding get_contest_participants get_contest_ranking
get_contest_ranking-paginate table contest_id platform user_ids offset limit nz h =
    let rows = filter (is_of contest_id platform user_ids) table in
    let sorted = slice_stable sql_less rows in
    let left = drop (non_negative offset) sorted in
    (
      ap (λ logs. paginate_contest_logs logs offset limit) (sort-sql rows)
          ∙ paginate_contest_logs-page sorted offset limit h
          ∙ ap some (
              sym (
                limited-take limit (length sorted) left nz
                  (omega (arith, length-drop (non_negative offset) sorted)))),
      sym (length-count sorted) ∙ count-slice_stable sql_less (λ l. true) rows ∙ length-count rows,
    )
