-- ===== src/Spider/Store/Laws.antt =====
-- What a refresh of one platform does to the stored submissions.
use mathlib.Core.Path.{subst}
use wust_algo_tracker.Prelude.{
  ℕ, String, ◌≡◌, refl, ap, Bool, true, false, ◌&&◌, Option, none, some, List, [], ◌∷◌, arith,
  str_eq, str_eq_iff, if◌then◌else◌, length, Bool-cases, inl, inr,
}
use wust_algo_tracker.Table.{find, delete_where, count_where}
use wust_algo_tracker.Spider.Normalize.{SubmitLog, normalize_fetched_submit_logs}
use wust_algo_tracker.Spider.Store.{
  Plugin, no_plugin, no_fetcher, fails, fetches, Outcome, saved, refused, has_key, upsert,
  upsert_all, reject_incomplete_full_fetch, is_of, save, save_fetched, fetch_and_save,
}
use wust_algo_tracker.Spider.Normalize.Rows.{row_of, UniqueIds, first_of, str_join}
use wust_algo_tracker.Spider.Normalize.Placed.{OfPlatform}
use wust_algo_tracker.Spider.Normalize.Laws.{latest, normalize-latest, normalize-OfPlatform}

-- The stored row of a submission.
unfoldable pub stored : String → String → List SubmitLog → Option SubmitLog
unfolding find
stored platform submit_id rows = find (has_key platform submit_id) rows

abbrev pub Untouched : List SubmitLog → Outcome × List SubmitLog → Type 0
Untouched rows (saved count skipped, after) = Unit
Untouched rows (refused skipped e, after) = after ≡ rows

save_fetched-Untouched :
    (user_id : ℕ) (platform : String) (need_all : Bool) (n : Option (List SubmitLog) × ℕ)
    (rows : List SubmitLog)
    → Untouched rows (save_fetched user_id platform need_all n rows)
unfolding save_fetched
save_fetched-Untouched user_id platform need_all (none, skipped) rows = refl
save_fetched-Untouched user_id platform need_all (some items, skipped) rows =
    elim (Bool-cases (
      reject_incomplete_full_fetch (length items) (count_where (is_of user_id platform) rows)
        need_all)) [ inl e ↦ rw e refl | inr e ↦ rw e tt ]

-- An attempt that returns an error, for whatever reason, has left the stored submissions as they were.
pub fetch_and_save-Untouched :
    (plugin : Plugin) (user_id : ℕ) (platform : String) (need_all : Bool) (rows : List SubmitLog)
    → Untouched rows (fetch_and_save plugin user_id platform need_all rows)
unfolding fetch_and_save
fetch_and_save-Untouched no_plugin user_id platform need_all rows = refl
fetch_and_save-Untouched no_fetcher user_id platform need_all rows = refl
fetch_and_save-Untouched (fails text) user_id platform need_all rows = refl
fetch_and_save-Untouched (fetches logs) user_id platform need_all rows =
    save_fetched-Untouched user_id platform need_all _ rows

-- A conflicting row gets all columns of the item.
merged :
    (r item : SubmitLog)
    → has_key item.platform item.submit_id r ≡ true
    → record r {
      user_id = item.user_id;
      contest = item.contest;
      problem = item.problem;
      lang = item.lang;
      status = item.status;
      time = item.time;
    }
      ≡ item
merged r item h =
    let p : r.platform ≡ item.platform = (str_eq_iff r.platform item.platform).0 (ground arith) in
    let s : r.submit_id ≡ item.submit_id =
      (str_eq_iff r.submit_id item.submit_id).0 (ground arith) in
    λ i. record {
      platform = p i;
      user_id = item.user_id;
      submit_id = s i;
      contest = item.contest;
      problem = item.problem;
      lang = item.lang;
      status = item.status;
      time = item.time;
    }

-- Two rows of the same key have the same keys.
same_key :
    (r item : SubmitLog) (platform id : String)
    → has_key item.platform item.submit_id r ≡ true
    → has_key platform id r ≡ has_key platform id item
same_key r item platform id h =
    let p : r.platform ≡ item.platform = (str_eq_iff r.platform item.platform).0 (ground arith) in
    let s : r.submit_id ≡ item.submit_id =
      (str_eq_iff r.submit_id item.submit_id).0 (ground arith) in
    λ i. str_eq (p i) platform && str_eq (s i) id

other_key :
    (r item : SubmitLog) (platform id : String)
    → has_key item.platform item.submit_id r ≡ false
    → has_key platform id r ≡ true
    → has_key platform id item ≡ false
other_key r item platform id h k = elim (Bool-cases (has_key platform id item)) [
  | inl e ↦ absurd (
      ground
        (arith, str_join r.platform item.platform platform, str_join r.submit_id item.submit_id id))
  | inr e ↦ e
]

-- After an item was put, its key has it, and every other key the row it had.
pub upsert-stored :
    (item : SubmitLog) (platform id : String) (rows : List SubmitLog)
    → stored platform id (upsert item rows)
      ≡ (if has_key platform id item then some item else stored platform id rows)
unfolding stored upsert find
upsert-stored item platform id [] = refl
upsert-stored item platform id (r ∷ rows) =
    elim (Bool-cases (has_key item.platform item.submit_id r)) [
      | inl e ↦ rw e (rw (merged r item e) (ground (arith, same_key r item platform id)))
      | inr e ↦
          rw e (ground (arith, upsert-stored item platform id rows, other_key r item platform id))
    ]

-- The rows put, each of its own id, are stored; every other row is the one it was.
pub upsert_all-stored :
    (items : List SubmitLog) (user_id : ℕ) (platform p id : String) (rows : List SubmitLog)
    → UniqueIds items
    → OfPlatform user_id platform items
    → stored p id (upsert_all items rows) ≡ (
        if str_eq platform p
        then first_of (row_of id items) (stored p id rows)
        else stored p id rows)
unfolding upsert_all row_of
upsert_all-stored [] user_id platform p id rows u o = ground arith
upsert_all-stored (item ∷ items) user_id platform p id rows u o =
    let of_platform : str_eq item.platform p ≡ str_eq platform p = ap (λ s. str_eq s p) o.0.1 in
    elim (Bool-cases (str_eq item.submit_id id)) [
      | inl e ↦
          let absent : row_of id items ≡ none =
            subst (λ s. row_of s items ≡ none) ((str_eq_iff item.submit_id id).0 e) u.0 in
          ground (
            arith,
            of_platform,
            absent,
            upsert_all-stored items user_id platform p id (upsert item rows) u.1 o.1,
            upsert-stored item p id rows,
          )
      | inr e ↦ ground (
        arith,
        of_platform,
        upsert_all-stored items user_id platform p id (upsert item rows) u.1 o.1,
        upsert-stored item p id rows,
      )
    ]

-- What the transaction of a refresh starts from: a full one has deleted the user's rows.
abbrev pub kept : ℕ → String → Bool → List SubmitLog → List SubmitLog
kept user_id platform need_all rows =
    if need_all then delete_where (is_of user_id platform) rows else rows

save_fetched-stored :
    (wanted : String → Option SubmitLog) (n : Option (List SubmitLog) × ℕ) (user_id : ℕ)
    (platform : String) (need_all : Bool) (rows : List SubmitLog) (count skipped : ℕ)
    → ((items : List SubmitLog)
        → n.0 ≡ some items
        → (UniqueIds items × OfPlatform user_id platform items)
          × ((id : String) → row_of id items ≡ wanted id))
    → (save_fetched user_id platform need_all n rows).0 ≡ saved count skipped
    → (p id : String)
    → stored p id (save_fetched user_id platform need_all n rows).1 ≡ (
        if str_eq platform p
        then first_of (wanted id) (stored p id (kept user_id platform need_all rows))
        else stored p id (kept user_id platform need_all rows))
unfolding save_fetched save
save_fetched-stored wanted (none, k) user_id platform need_all rows count skipped w e p id =
    absurd (ground arith)
save_fetched-stored wanted (some items, k) user_id platform need_all rows count skipped w e p id =
    elim (Bool-cases (
      reject_incomplete_full_fetch (length items) (count_where (is_of user_id platform) rows)
        need_all)) [
          | inl r ↦ absurd (ground arith)
          | inr r ↦ rw r (
              rw ((w items refl).1 id) at (
                upsert_all-stored items user_id platform p id (kept user_id platform need_all rows)
                  (w items refl).0.0 (w items refl).0.1))
        ]

-- The answer of a platform is in the table after an attempt that succeeds: each submission of the
-- platform has the last valid item of its id, and every other row is as it was, but that a full
-- refresh has deleted the user's rows of the platform.
pub fetch_and_save-stored :
    (logs : List SubmitLog) (user_id : ℕ) (platform : String) (need_all : Bool)
    (rows : List SubmitLog) (count skipped : ℕ)
    → (fetch_and_save (fetches logs) user_id platform need_all rows).0 ≡ saved count skipped
    → (p id : String)
    → stored p id (fetch_and_save (fetches logs) user_id platform need_all rows).1 ≡ (
        if str_eq platform p
        then first_of
            (latest user_id platform id logs)
            (stored p id (kept user_id platform need_all rows))
        else stored p id (kept user_id platform need_all rows))
unfolding fetch_and_save
fetch_and_save-stored logs user_id platform need_all rows count skipped e p id =
    save_fetched-stored (λ j. latest user_id platform j logs)
      (normalize_fetched_submit_logs user_id platform logs) user_id platform need_all rows count
      skipped
      (λ items n. (
        (
          (normalize-latest user_id platform logs items n).0,
          normalize-OfPlatform user_id platform logs items n,
        ),
        (normalize-latest user_id platform logs items n).1,
      ))
      e p id
