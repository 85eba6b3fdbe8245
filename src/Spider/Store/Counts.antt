-- ===== src/Spider/Store/Counts.antt =====
-- A full refresh does not lose submissions.
use mathlib.Core.Path.{subst}
use wust_algo_tracker.Prelude.{
  ℕ, suc, ◌+◌, ◌≤◌, String, ◌≡◌, refl, ap, Bool, true, false, Option, none, some, List, [], ◌∷◌,
  arith, str_eq, str_eq_iff, length, Bool-cases, inl, inr, sym,
}
use wust_algo_tracker.Table.{find, delete_where, count_where}
use wust_algo_tracker.Spider.Normalize.{SubmitLog, normalize_fetched_submit_logs}
use wust_algo_tracker.Spider.Normalize.Rows.{row_of, UniqueIds}
use wust_algo_tracker.Spider.Normalize.Placed.{OfPlatform}
use wust_algo_tracker.Spider.Normalize.Laws.{normalize-latest, normalize-OfPlatform}
use wust_algo_tracker.Spider.Store.{
  fetches, saved, has_key, upsert, upsert_all, reject_incomplete_full_fetch, is_of, save,
  save_fetched, fetch_and_save,
}
use wust_algo_tracker.Spider.Store.Laws.{stored, upsert-stored}

abbrev is_there : Option SubmitLog → Bool
is_there none = false
is_there (some r) = true

-- Whether a row is there and is of this user and platform.
abbrev owned : ℕ → String → Option SubmitLog → Bool
owned user_id platform none = false
owned user_id platform (some r) = is_of user_id platform r

-- The number of submissions of a user on a platform.
abbrev pub count_of : ℕ → String → List SubmitLog → ℕ
count_of user_id platform rows = count_where (is_of user_id platform) rows

module _ (user_id : ℕ) (platform : String) where
  -- One row more of the user, unless its key was the user's already.
  count-upsert :
      (item : SubmitLog) (rows : List SubmitLog)
      → is_of user_id platform item ≡ true
      → owned user_id platform (stored item.platform item.submit_id rows) ≡ false
      → count_of user_id platform (upsert item rows) ≡ suc (count_of user_id platform rows)
  unfolding count_where upsert stored find
  count-upsert item [] h o = ground arith
  count-upsert item (r ∷ rows) h o = elim (Bool-cases (has_key item.platform item.submit_id r)) [
    | inl e ↦
        let same : str_eq r.platform platform ≡ str_eq item.platform platform =
          ap (λ s. str_eq s platform) ((str_eq_iff r.platform item.platform).0 (ground arith)) in
        rw e (ground (arith, same))
    | inr e ↦ rw e (ground (arith, count-upsert item rows h))
  ]

  -- None of these items has the key of a row of the user.
  abbrev Free : List SubmitLog → List SubmitLog → Type 0
  Free items rows =
      (id : String)
      → is_there (row_of id items) ≡ true
      → owned user_id platform (stored platform id rows) ≡ false

  Free-upsert :
      (item : SubmitLog) (items rows : List SubmitLog)
      → item.platform ≡ platform
      → row_of item.submit_id items ≡ none
      → Free (item ∷ items) rows
      → Free items (upsert item rows)
  unfolding row_of
  Free-upsert item items rows p absent f id there = elim (Bool-cases (str_eq item.submit_id id)) [
    | inl e ↦ absurd (
        ground
          (arith, subst (λ s. row_of s items ≡ none) ((str_eq_iff item.submit_id id).0 e) absent))
    | inr e ↦ ground (arith, f id, upsert-stored item platform id rows)
  ]

  count-upsert_all :
      (items rows : List SubmitLog)
      → UniqueIds items
      → OfPlatform user_id platform items
      → Free items rows
      → count_of user_id platform (upsert_all items rows)
        ≡ length items + count_of user_id platform rows
  unfolding upsert_all row_of
  count-upsert_all [] rows u o f = omega arith
  count-upsert_all (item ∷ items) rows u o f =
      let here : owned user_id platform (stored item.platform item.submit_id rows) ≡ false =
        subst (λ p. owned user_id platform (stored p item.submit_id rows) ≡ false) (sym o.0.1)
          (f item.submit_id (ground (arith, (str_eq_iff item.submit_id item.submit_id).1 refl))) in
      let one =
        count-upsert item rows (ground (arith, (str_eq_iff item.platform platform).1)) here in
      omega (
        arith,
        one,
        count-upsert_all items (upsert item rows) u.1 o.1 (Free-upsert item items rows o.0.1 u.0 f),
      )

  Free-delete :
      (id : String) (rows : List SubmitLog)
      → owned user_id platform (stored platform id (delete_where (is_of user_id platform) rows))
        ≡ false
  unfolding stored find delete_where
  Free-delete id [] = refl
  Free-delete id (r ∷ rows) = ground (arith, Free-delete id rows)

  count-delete :
      (rows : List SubmitLog)
      → count_of user_id platform (delete_where (is_of user_id platform) rows) ≡ 0
  unfolding count_where delete_where
  count-delete [] = refl
  count-delete (r ∷ rows) = ground (arith, count-delete rows)

  save_fetched-count :
      (n : Option (List SubmitLog) × ℕ) (rows : List SubmitLog) (count skipped : ℕ)
      → ((items : List SubmitLog)
          → n.0 ≡ some items
          → UniqueIds items × OfPlatform user_id platform items)
      → (save_fetched user_id platform true n rows).0 ≡ saved count skipped
      → (count_of user_id platform (save_fetched user_id platform true n rows).1 ≡ count)
        × (count_of user_id platform rows ≤ count)
  unfolding save_fetched save reject_incomplete_full_fetch
  save_fetched-count (none, k) rows count skipped w e = absurd (ground arith)
  save_fetched-count (some items, k) rows count skipped w e =
      let after =
        count-upsert_all items (delete_where (is_of user_id platform) rows) (w items refl).0
          (w items refl).1 (λ id there. Free-delete id rows) in
      elim (Bool-cases
        (reject_incomplete_full_fetch (length items) (count_of user_id platform rows) true)) [
          | inl r ↦ absurd (ground arith)
          | inr r ↦ rw r (ground (arith, after, count-delete rows), ground arith)
        ]

  -- After a full refresh that succeeds, the user has as many submissions of the platform as the
  -- refresh reports, and at least as many as before.
  pub fetch_and_save-count :
      (logs rows : List SubmitLog) (count skipped : ℕ)
      → (fetch_and_save (fetches logs) user_id platform true rows).0 ≡ saved count skipped
      → (count_of user_id platform (fetch_and_save (fetches logs) user_id platform true rows).1
          ≡ count)
        × (count_of user_id platform rows ≤ count)
  unfolding fetch_and_save
  fetch_and_save-count logs rows count skipped e =
      save_fetched-count (normalize_fetched_submit_logs user_id platform logs) rows count skipped
        (λ items n. (
          (normalize-latest user_id platform logs items n).0,
          normalize-OfPlatform user_id platform logs items n,
        ))
        e
