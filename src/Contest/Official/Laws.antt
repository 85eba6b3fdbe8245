-- ===== src/Contest/Official/Laws.antt =====
-- The ranks that the standings give, and how long an answer of the site serves.
use wust_algo_tracker.Prelude.{
  ℕ, ◌+◌, ◌≤◌, ◌≡◌, refl, ap, ◌∙◌, String, Bool, false, not, ◌&&◌, ◌||◌, ◌==◌, Option, none, some,
  List, [], ◌∷◌, any, arith, str_eq, str_eq_iff, if◌then◌else◌, Bool-cases, inl, inr,
}
use wust_algo_tracker.Text.{is_empty, trim_space}
use wust_algo_tracker.Text.Unicode.{Unicode}
use wust_algo_tracker.Contest.Cache.{TtlCache, get, set_with_ttl, find_entry}
use wust_algo_tracker.Contest.Official.{
  StandingsRow, Standings, Caches, codeforces_standings_ttl, is_ranked, rank_of, keep_standings,
  cache_key, fetch_codeforces_standings, normalize_codeforces_handle, add_members, add_rows,
}

-- The first of two that is there.
abbrev pub first_rank : Option ℕ → Option ℕ → Option ℕ
first_rank none r = r
first_rank (some rank) r = some rank

module _ (u : Unicode) where
  abbrev pub is_handle : String → String → Bool
  is_handle handle member = str_eq (normalize_codeforces_handle u member) handle

  -- The rank of the first row that has a rank and names the handle.
  unfoldable pub standing : String → List StandingsRow → Option ℕ
  unfolding any
  standing handle [] = none
  standing handle (row ∷ rows) =
      if not (row.rank == 0) && any (is_handle handle) row.handles
      then some row.rank
      else standing handle rows

  rank-add_members :
      (rank : ℕ) (members : List String) (ranks : List (String × ℕ)) (handle : String)
      → is_empty handle ≡ false
      → rank_of handle (add_members u rank members ranks)
        ≡ first_rank
            (rank_of handle ranks)
            (if any (is_handle handle) members then some rank else none)
  unfolding add_members rank_of any
  rank-add_members rank [] ranks handle h = ground arith
  rank-add_members rank (member ∷ members) ranks handle h =
      let own = normalize_codeforces_handle u member in
      elim (Bool-cases (is_empty own || is_ranked (rank_of own ranks))) [
        | inl e ↦ rw e (
            rank-add_members rank members ranks handle h
            ∙ ground (arith, e, h, str_eq_iff own handle))
        | inr e ↦ rw e (
            rank-add_members rank members ((own, rank) ∷ ranks) handle h
            ∙ ground (arith, e, h, str_eq_iff own handle))
      ]

  rank-add_rows :
      (rows : List StandingsRow) (ranks : List (String × ℕ)) (handle : String)
      → is_empty handle ≡ false
      → rank_of handle (add_rows u rows ranks)
        ≡ first_rank (rank_of handle ranks) (standing handle rows)
  unfolding add_rows standing
  rank-add_rows [] ranks handle h = ground arith
  rank-add_rows (row ∷ rows) ranks handle h =
      rank-add_rows rows _ handle h
      ∙ ground (arith, rank-add_members row.rank row.handles ranks handle h)

  -- A handle that is not empty has the rank of the first row of the standings that has one and names
  -- the handle, and no rank where there is no such row.
  pub add_rows-standing :
      (rows : List StandingsRow) (handle : String)
      → is_empty handle ≡ false
      → rank_of handle (add_rows u rows []) ≡ standing handle rows
  unfolding rank_of
  add_rows-standing rows handle h = rank-add_rows rows [] handle h

  get-missing :
      (t : ℕ) (key : String) (c : TtlCache Standings)
      → find_entry key c.entries ≡ none
      → get t key c ≡ (none, c)
  unfolding get
  get-missing t key c n = rw (get, n) refl

  fetch-first :
      (request : String → Option Standings) (t : ℕ) (contest_id : String) (c : Caches)
      (parsed : Standings)
      → request (trim_space contest_id) ≡ some parsed
      → is_empty (trim_space contest_id) ≡ false
      → find_entry (cache_key u contest_id) c.standings.entries ≡ none
      → fetch_codeforces_standings u request t contest_id c
        ≡ keep_standings u t (cache_key u contest_id) (some parsed) c
  unfolding fetch_codeforces_standings
  fetch-first request t contest_id c parsed r e n =
      let missing = get-missing t (cache_key u contest_id) c.standings n in
      rw (e, missing, r)
        (ap
          (λ g.
            keep_standings u t (cache_key u contest_id) (some parsed)
              (record c { standings = g.1 }))
          missing)

  -- An answer that is kept is found again until its lifetime is over.
  fetch-kept :
      (later : String → Option Standings) (t now : ℕ) (contest_id : String) (c : Caches)
      (parsed : Standings)
      → is_empty (trim_space contest_id) ≡ false
      → now ≤ t + codeforces_standings_ttl t parsed
      → (fetch_codeforces_standings u later now contest_id
          (keep_standings u t (cache_key u contest_id) (some parsed) c).1).0
        ≡ some parsed
  unfolding fetch_codeforces_standings keep_standings get set_with_ttl find_entry
      codeforces_standings_ttl
  fetch-kept later t now contest_id c parsed e h =
      let key = cache_key u contest_id in ground (arith, e, h, str_eq_iff key key)

  -- Once the site has answered for a contest, its answer serves until its lifetime is over: at such
  -- a time the standings are the same, whatever the site would answer.
  pub fetch_codeforces_standings-serves :
      (request later : String → Option Standings) (t now : ℕ) (contest_id : String) (c : Caches)
      (parsed : Standings)
      → request (trim_space contest_id) ≡ some parsed
      → is_empty (trim_space contest_id) ≡ false
      → find_entry (cache_key u contest_id) c.standings.entries ≡ none
      → now ≤ t + codeforces_standings_ttl t parsed
      → (fetch_codeforces_standings u request t contest_id c).0 ≡ some parsed
        × ((fetch_codeforces_standings u later now contest_id
              (fetch_codeforces_standings u request t contest_id c).1).0
            ≡ some parsed)
  unfolding keep_standings
  fetch_codeforces_standings-serves request later t now contest_id c parsed r e n h =
      let first = fetch-first request t contest_id c parsed r e n in
      (
        ap (λ x. x.0) first,
        ap (λ x. (fetch_codeforces_standings u later now contest_id x.1).0) first
            ∙ fetch-kept later t now contest_id c parsed e h,
      )
