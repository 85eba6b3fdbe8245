-- ===== src/Contest.antt =====
-- The contest pages of the core-data service: the rows and times that the modules below share
-- (app/core_data/internal/data/model/contest_log.go, app/core_data/internal/service/contest_matrix.go).
pub mod Users
pub mod Status
pub mod Alias
pub mod Address
pub mod Problems
pub mod Board
pub mod Ranking
pub mod Matrix
pub mod Cache
pub mod Official
use wust_algo_tracker.Prelude.{
  ℕ, ◌+◌, ◌%◌, String, Bool, true, false, not, Option, none, some, List, ltb,
}

-- model.ContestLog; `none` is the zero time. A rank that is not positive is 0 here.
pub record ContestLog : Type 0 where
  pub id : ℕ
  pub platform : String
  pub user_id : ℕ
  pub contest_id : String
  pub contest_name : String
  pub contest_url : String
  pub rank : ℕ
  pub total_count : ℕ
  pub ac_count : ℕ
  pub time : Option ℕ
  pub end_time : Option ℕ

pub record ContestProblemMeta : Type 0 where
  pub key : String
  pub index : String
  pub name : String
  pub url : String
  pub aliases : List String

-- `t.Before(s)`: the zero time is before every other.
abbrev pub before : Option ℕ → Option ℕ → Bool
before t none = false
before none (some s) = true
before (some t) (some s) = ltb t s

-- The sum of two `int32`, each held as the number below 2^32 with its bits.
unfoldable pub add32 : ℕ → ℕ → ℕ
add32 a b = (a + b) % 4294967296
