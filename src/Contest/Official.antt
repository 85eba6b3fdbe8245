-- ===== src/Contest/Official.antt =====
-- The standings of a contest's site, kept in caches (contest_matrix.go), and the ranks that are
-- taken from them (contest_official_rank.go, both of app/core_data/internal/service). Times are in
-- microseconds, but for those of the standings, which are in seconds.
pub mod Laws
use Prim.Native.String.{◌++◌ as str_append}
use wust_algo_tracker.Prelude.{
  ℕ, ◌+◌, ◌*◌, String, Bool, true, false, not, ◌&&◌, ◌||◌, ◌==◌, ltb, Option, none, some, List, [],
  ◌∷◌, map, any, length, str_eq, if◌then◌else◌,
}
use wust_algo_tracker.Text.{is_empty, trim_space}
use wust_algo_tracker.Text.Unicode.{Unicode, map_runes, to_lower, has_prefix}
use wust_algo_tracker.Contest.{ContestLog, ContestProblemMeta}
use wust_algo_tracker.Contest.Users.{mem, collect_contest_user_ids}
use wust_algo_tracker.Contest.Address.{CodeforcesMatrixProblem, at_coder, code_forces}
use wust_algo_tracker.Contest.Problems.{codeforces_problems}
use wust_algo_tracker.Contest.Matrix.{MatrixMeta}
use wust_algo_tracker.Contest.Cache.{TtlCache, get, set, set_with_ttl}

-- A row of codeforcesStandingsResponse; a rank that is not positive is 0.
pub record StandingsRow : Type 0 where
  pub rank : ℕ
  pub handles : List String

-- codeforcesStandingsResponse
pub record Standings : Type 0 where
  pub name : String
  pub start_time : ℕ
  pub duration_seconds : ℕ
  pub problems : List CodeforcesMatrixProblem
  pub rows : List StandingsRow

-- The package's caches of Codeforces.
pub record Caches : Type 0 where
  pub standings : TtlCache Standings
  pub meta : TtlCache MatrixMeta
  pub ranks : TtlCache (List (String × ℕ))

-- model.Platform
pub record Platform : Type 0 where
  pub user_id : ℕ
  pub platform : String
  pub username : String

-- atCoderUserHistoryItem; a place that is not positive is 0.
pub record AtCoderUserHistoryItem : Type 0 where
  pub place : ℕ
  pub contest_screen_name : String

abbrev minute : ℕ
minute = 60000000

-- codeforcesStandingsTTL
unfoldable pub codeforces_standings_ttl : ℕ → Standings → ℕ
codeforces_standings_ttl now parsed =
    if (parsed.start_time == 0) || (parsed.duration_seconds == 0)
    then minute
    else if ltb now ((parsed.start_time + parsed.duration_seconds) * 1000000 + 10 * minute)
    then minute
    else 360 * minute

abbrev pub is_ranked : Option ℕ → Bool
is_ranked none = false
is_ranked (some rank) = true

abbrev pub rank_or_zero : Option ℕ → ℕ
rank_or_zero none = 0
rank_or_zero (some rank) = rank

-- A map of ranks by handle, or of handles by user, with the entry written last first.
unfoldable pub rank_of : String → List (String × ℕ) → Option ℕ
rank_of handle [] = none
rank_of handle ((h, rank) ∷ ranks) = if str_eq h handle then some rank else rank_of handle ranks

unfoldable pub handle_of : ℕ → List (ℕ × String) → String
handle_of user_id [] = ""
handle_of user_id ((id, handle) ∷ handles) =
    if id == user_id then handle else handle_of user_id handles

module _ (u : Unicode) where
  -- codeforcesStandingsToMeta
  unfoldable pub codeforces_standings_to_meta : String → Standings → MatrixMeta
  unfolding codeforces_problems
  codeforces_standings_to_meta contest_id parsed = record {
    title = parsed.name;
    start = if parsed.start_time == 0 then none else some (parsed.start_time * 1000000);
    end =
        if (parsed.start_time == 0) || (parsed.duration_seconds == 0)
        then none
        else some ((parsed.start_time + parsed.duration_seconds) * 1000000);
    problems = codeforces_problems u contest_id parsed.problems [];
  }

  abbrev pub cache_key : String → String
  cache_key contest_id = to_lower u (trim_space contest_id)

  -- What the request gives: the answer is kept, an error is not.
  unfoldable pub keep_standings : ℕ → String → Option Standings → Caches → Option Standings × Caches
  unfolding set_with_ttl codeforces_standings_ttl
  keep_standings now key none c = (none, c)
  keep_standings now key (some parsed) c = (
    some parsed,
    record c {
      standings = set_with_ttl now key parsed (codeforces_standings_ttl now parsed) c.standings;
    },
  )

  -- fetchCodeforcesStandings; `request` asks the site for a contest, `none` is an error.
  unfoldable pub fetch_codeforces_standings :
      (String → Option Standings) → ℕ → String → Caches → Option Standings × Caches
  unfolding get keep_standings trim_space map_runes
  fetch_codeforces_standings request now contest_id c =
      let id = trim_space contest_id in
      if is_empty id
      then (none, c)
      else let cached = get now (to_lower u id) c.standings in
        elim cached.0 [
          | some parsed ↦ (some parsed, record c { standings = cached.1 })
          | none ↦
              keep_standings now (to_lower u id) (request id) (record c { standings = cached.1 })
        ]

  -- fetchCodeforcesMatrixMeta
  unfoldable pub fetch_codeforces_matrix_meta :
      (String → Option Standings) → ℕ → String → Caches → Option MatrixMeta × Caches
  unfolding get set fetch_codeforces_standings codeforces_standings_to_meta trim_space map_runes
  fetch_codeforces_matrix_meta request now contest_id c =
      let id = trim_space contest_id in
      if is_empty id
      then (none, c)
      else let cached = get now (to_lower u id) c.meta in
        let fetched = fetch_codeforces_standings request now id (record c { meta = cached.1 }) in
        elim cached.0 [
          | some meta ↦ (some meta, record c { meta = cached.1 })
          | none ↦ elim fetched.0 [
            | none ↦ (none, fetched.1)
            | some parsed ↦ (
              some (codeforces_standings_to_meta id parsed),
              record fetched.1 {
                meta =
                    set now (to_lower u id) (codeforces_standings_to_meta id parsed) fetched.1.meta;
              },
            )
          ]
        ]

  -- normalizeCodeforcesHandle
  unfoldable pub normalize_codeforces_handle : String → String
  unfolding trim_space map_runes
  normalize_codeforces_handle handle = to_lower u (trim_space handle)

  unfoldable pub add_members : ℕ → List String → List (String × ℕ) → List (String × ℕ)
  unfolding normalize_codeforces_handle rank_of
  add_members rank [] ranks = ranks
  add_members rank (member ∷ members) ranks =
      let handle = normalize_codeforces_handle member in
      add_members rank members (
        if is_empty handle || is_ranked (rank_of handle ranks)
        then ranks
        else (handle, rank) ∷ ranks)

  unfoldable pub add_rows : List StandingsRow → List (String × ℕ) → List (String × ℕ)
  unfolding add_members
  add_rows [] ranks = ranks
  add_rows (row ∷ rows) ranks =
      add_rows rows (if row.rank == 0 then ranks else add_members row.rank row.handles ranks)

  -- fetchCodeforcesOfficialRankMap
  unfoldable pub fetch_codeforces_official_rank_map :
      (String → Option Standings) → ℕ → String → Caches → Option (List (String × ℕ)) × Caches
  unfolding get set_with_ttl fetch_codeforces_standings add_rows codeforces_standings_ttl trim_space
      map_runes
  fetch_codeforces_official_rank_map request now contest_id c =
      let key = to_lower u (trim_space contest_id) in
      let cached = get now key c.ranks in
      let fetched =
        fetch_codeforces_standings request now contest_id (record c { ranks = cached.1 }) in
      elim cached.0 [
        | some ranks ↦ (some ranks, record c { ranks = cached.1 })
        | none ↦ elim fetched.0 [
          | none ↦ (none, fetched.1)
          | some parsed ↦ (
            some (add_rows parsed.rows []),
            record fetched.1 {
              ranks =
                  set_with_ttl now key (add_rows parsed.rows [])
                    (codeforces_standings_ttl now parsed) fetched.1.ranks;
            },
          )
        ]
      ]

  -- The handles of the users' bindings on a site.
  unfoldable pub bound_handles :
      String → (String → String) → List ℕ → List Platform → List (ℕ × String) → List (ℕ × String)
  unfolding map_runes any
  bound_handles site clean user_ids [] handles = handles
  bound_handles site clean user_ids (p ∷ platforms) handles =
      bound_handles site clean user_ids platforms (
        if (str_eq (to_lower u p.platform) (to_lower u site) && mem p.user_id user_ids)
          && not (is_empty (clean p.username))
        then (p.user_id, clean p.username) ∷ handles
        else handles)

  -- The loop over the rows: a user that the standings do not name has no rank.
  abbrev pub with_rank : List (ℕ × String) → List (String × ℕ) → ContestLog → ContestLog
  with_rank handles ranks l = record l {
    rank = rank_or_zero (rank_of (handle_of l.user_id handles) ranks);
  }

  -- applyCodeforcesOfficialRanks
  unfoldable pub apply_codeforces_official_ranks :
      (String → Option Standings)
      → ℕ
      → List Platform
      → String
      → List ContestLog
      → Caches
      → List ContestLog × Caches
  unfolding collect_contest_user_ids bound_handles normalize_codeforces_handle handle_of rank_of
      fetch_codeforces_official_rank_map
  apply_codeforces_official_ranks request now platforms contest_id logs c =
      let user_ids = collect_contest_user_ids logs in
      let handles = bound_handles code_forces normalize_codeforces_handle user_ids platforms [] in
      if (is_empty contest_id || (length logs == 0))
        || ((length user_ids == 0) || (length handles == 0))
      then (logs, c)
      else let fetched = fetch_codeforces_official_rank_map request now contest_id c in
        elim fetched.0 [
          | none ↦ (logs, fetched.1)
          | some ranks ↦
              (if length ranks == 0 then logs else map (with_rank handles ranks) logs, fetched.1)
        ]

  -- atCoderHistoryMatchesContest
  unfoldable pub at_coder_history_matches_contest : String → AtCoderUserHistoryItem → Bool
  unfolding trim_space map_runes has_prefix
  at_coder_history_matches_contest contest_id item =
      let contest = to_lower u (trim_space contest_id) in
      let screen_name = to_lower u (trim_space item.contest_screen_name) in
      if is_empty contest
      then false
      else str_eq screen_name (str_append contest ".contest.atcoder.jp")
        || has_prefix screen_name (str_append contest ".")

  -- The loop of fetchAtCoderOfficialRank.
  unfoldable pub at_coder_official_rank : String → List AtCoderUserHistoryItem → Option ℕ
  unfolding at_coder_history_matches_contest
  at_coder_official_rank contest_id [] = none
  at_coder_official_rank contest_id (item ∷ history) =
      if not (item.place == 0) && at_coder_history_matches_contest contest_id item
      then some item.place
      else at_coder_official_rank contest_id history
