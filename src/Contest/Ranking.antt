-- ===== src/Contest/Ranking.antt =====
-- The list of a contest's users: sortContestLogs and paginateContestLogs
-- (app/core_data/internal/service/contest.go), and the queries GetContestParticipants and
-- GetContestRanking (app/core_data/internal/data/dal/spider.go).
pub mod Laws
use wust_algo_tracker.Prelude.{
  ℕ, suc, zero, ◌+◌, ◌-◌, String, Bool, true, false, not, ◌&&◌, ◌||◌, ◌==◌, ltb, leb, Option, none,
  some, List, [], ◌∷◌, filter, any, length, str_eq, if◌then◌else◌,
}
use wust_algo_tracker.Prelude.Sorting.{slice_stable}
use wust_algo_tracker.Contest.{ContestLog}
use wust_algo_tracker.Contest.Users.{mem}

-- An `int64`: `pos n` is n, and `negsuc n` is -(n + 1).
pub data ℤ : Type 0 where
  pos negsuc : ℕ → ℤ

-- The sum of two that are not negative.
unfoldable pub add64 : ℕ → ℕ → ℤ
add64 a b =
    if ltb (a + b) 9223372036854775808
    then ℤ.pos (a + b)
    else ℤ.negsuc (18446744073709551615 - (a + b))

-- The comparison of sortContestLogs.
unfoldable pub less : ContestLog → ContestLog → Bool
less l r =
    let left_ranked = ltb 0 l.rank in
    let right_ranked = ltb 0 r.rank in
    if (left_ranked && not right_ranked) || (right_ranked && not left_ranked)
    then left_ranked
    else if not (l.rank == r.rank)
    then if l.rank == 0 then false else if r.rank == 0 then true else ltb l.rank r.rank
    else if not (l.ac_count == r.ac_count)
    then ltb r.ac_count l.ac_count
    else if not (l.total_count == r.total_count)
    then ltb r.total_count l.total_count
    else ltb l.user_id r.user_id

unfoldable pub sort_contest_logs : List ContestLog → List ContestLog
unfolding slice_stable less
sort_contest_logs logs = slice_stable less logs

unfoldable pub drop : ℕ → List ContestLog → List ContestLog
drop zero logs = logs
drop (suc n) [] = []
drop (suc n) (x ∷ logs) = drop n logs

unfoldable pub take : ℕ → List ContestLog → List ContestLog
take zero logs = []
take (suc n) [] = []
take (suc n) (x ∷ logs) = x ∷ take n logs

-- `logs[start:end]`, where `none` is a panic.
unfoldable pub slice : ℕ → ℤ → List ContestLog → Option (List ContestLog)
unfolding take drop
slice start (ℤ.pos end) logs =
    if leb start end && leb end (length logs)
    then some (take (end - start) (drop start logs))
    else none
slice start (ℤ.negsuc n) logs = none

-- `if end > len(logs) { end = len(logs) }`
abbrev pub clip : ℤ → ℕ → ℤ
clip (ℤ.pos end) n = if ltb n end then ℤ.pos n else ℤ.pos end
clip (ℤ.negsuc m) n = ℤ.negsuc m

abbrev pub non_negative : ℤ → ℕ
non_negative (ℤ.pos n) = n
non_negative (ℤ.negsuc n) = 0

abbrev pub positive_or : ℤ → ℕ → ℕ
positive_or (ℤ.pos zero) d = d
positive_or (ℤ.pos (suc n)) d = suc n
positive_or (ℤ.negsuc n) d = d

-- paginateContestLogs
unfoldable pub paginate_contest_logs : List ContestLog → ℤ → ℤ → Option (List ContestLog)
unfolding slice add64
paginate_contest_logs logs offset limit =
    let start = non_negative offset in
    let size = positive_or limit (length logs) in
    if leb (length logs) start
    then some []
    else slice start (clip (add64 start size) (length logs)) logs

-- The order of the queries: `CASE WHEN rank > 0 THEN 0 ELSE 1 END, rank, ac_count DESC,
-- total_count DESC, user_id`.
abbrev pub rank_case : ContestLog → ℕ
rank_case l = if ltb 0 l.rank then 0 else 1

unfoldable pub sql_less : ContestLog → ContestLog → Bool
sql_less l r =
    ltb (rank_case l) (rank_case r)
    || ((rank_case l == rank_case r)
        && (ltb l.rank r.rank
            || ((l.rank == r.rank)
                && (ltb r.ac_count l.ac_count
                    || ((l.ac_count == r.ac_count)
                        && (ltb r.total_count l.total_count
                            || ((l.total_count == r.total_count) && ltb l.user_id r.user_id)))))))

abbrev pub is_of : String → String → List ℕ → ContestLog → Bool
is_of contest_id platform user_ids l =
    (str_eq l.contest_id contest_id && str_eq l.platform platform)
    && ((length user_ids == 0) || mem l.user_id user_ids)

-- GetContestParticipants
unfoldable pub get_contest_participants :
    List ContestLog → String → String → List ℕ → List ContestLog
unfolding slice_stable sql_less filter any
get_contest_participants table contest_id platform user_ids =
    slice_stable sql_less (filter (is_of contest_id platform user_ids) table)

-- gorm's Offset and Limit: a negative offset or limit sets none, and a limit of 0 is `LIMIT 0`.
unfoldable pub limited : ℤ → List ContestLog → List ContestLog
unfolding take
limited (ℤ.pos n) rows = take n rows
limited (ℤ.negsuc n) rows = rows

-- GetContestRanking: the rows and their total
unfoldable pub get_contest_ranking :
    List ContestLog → String → String → ℤ → ℤ → List ℕ → List ContestLog × ℕ
unfolding slice_stable sql_less filter limited drop any
get_contest_ranking table contest_id platform offset limit user_ids =
    let rows = filter (is_of contest_id platform user_ids) table in
    (limited limit (drop (non_negative offset) (slice_stable sql_less rows)), length rows)
