-- ===== src/Contest/Users.antt =====
-- collectContestUserIDs (app/core_data/internal/service/contest_matrix.go).
pub mod Laws
use wust_algo_tracker.Prelude.{ℕ, Bool, ◌||◌, ◌==◌, List, [], ◌∷◌, ◌++◌, any, if◌then◌else◌}
use wust_algo_tracker.Contest.{ContestLog}

abbrev pub mem : ℕ → List ℕ → Bool
mem id ids = any (λ i. id == i) ids

-- The loop, where `seen` has the ids that are collected.
unfoldable pub collect : List ContestLog → List ℕ → List ℕ
unfolding any
collect [] ids = ids
collect (item ∷ logs) ids =
    collect logs
      (if (item.user_id == 0) || mem item.user_id ids then ids else ids ++ item.user_id ∷ [])

unfoldable pub collect_contest_user_ids : List ContestLog → List ℕ
unfolding collect
collect_contest_user_ids logs = collect logs []
