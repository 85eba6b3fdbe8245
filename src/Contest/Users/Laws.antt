-- ===== src/Contest/Users/Laws.antt =====
-- The users that collectContestUserIDs returns.
use wust_algo_tracker.Prelude.{
  ℕ, ◌≡◌, Bool, not, ◌&&◌, ◌||◌, ◌==◌, List, [], ◌∷◌, ◌++◌, any, any-append, IsDistinct,
  snoc-IsDistinct, arith, Bool-cases, inl, inr, ==_iff,
}
use wust_algo_tracker.Contest.{ContestLog}
use wust_algo_tracker.Contest.Users.{mem, collect, collect_contest_user_ids}

abbrev pub same_id : ℕ → ℕ → Bool
same_id i j = i == j

abbrev pub is_log_of : ℕ → ContestLog → Bool
is_log_of id item = id == item.user_id

collect-IsDistinct :
    (logs : List ContestLog) (ids : List ℕ)
    → IsDistinct same_id ids
    → IsDistinct same_id (collect logs ids)
unfolding collect
collect-IsDistinct [] ids d = d
collect-IsDistinct (item ∷ logs) ids d =
    elim (Bool-cases ((item.user_id == 0) || mem item.user_id ids)) [
      | inl e ↦ rw e (collect-IsDistinct logs ids d)
      | inr e ↦ rw e (
          collect-IsDistinct logs (ids ++ item.user_id ∷ [])
            (snoc-IsDistinct same_id ids item.user_id (λ a b. ground arith) d (ground arith)))
    ]

mem-snoc : (id j : ℕ) (ids : List ℕ) → mem id (ids ++ j ∷ []) ≡ (mem id ids || (id == j))
unfolding any
mem-snoc id j ids = ground (arith, any-append (λ i. id == i) ids (j ∷ []))

-- What the loop adds to the ids that it starts from.
mem-collect :
    (id : ℕ) (logs : List ContestLog) (ids : List ℕ)
    → mem id (collect logs ids) ≡ (mem id ids || (not (id == 0) && any (is_log_of id) logs))
unfolding collect any
mem-collect id [] ids = ground (arith)
mem-collect id (item ∷ logs) ids = elim (Bool-cases ((item.user_id == 0) || mem item.user_id ids)) [
  | inl e ↦ rw e (ground (arith, mem-collect id logs ids, ==_iff id item.user_id))
  | inr e ↦
      rw e (
        ground
          (arith, mem-collect id logs (ids ++ item.user_id ∷ []), mem-snoc id item.user_id ids))
]

-- No user is collected twice; a user is collected just when the id is not 0 and a row is theirs.
pub collect_contest_user_ids-mem :
    (logs : List ContestLog) (id : ℕ)
    → IsDistinct same_id (collect_contest_user_ids logs)
      × (mem id (collect_contest_user_ids logs) ≡ (not (id == 0) && any (is_log_of id) logs))
unfolding collect_contest_user_ids IsDistinct any
collect_contest_user_ids-mem logs id = (collect-IsDistinct logs [] tt, mem-collect id logs [])
