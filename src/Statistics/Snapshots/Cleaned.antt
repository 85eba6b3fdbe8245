-- ===== src/Statistics/Snapshots/Cleaned.antt =====
-- How many snapshots a cleanup leaves, and which.
use wust_algo_tracker.Prelude.{
  ℕ, zero, suc, ◌-◌, ◌≤◌, ◌≡◌, refl, ap, sym, ◌∙◌, Bool, true, false, not, List, [], ◌∷◌, any, all,
  length, arith, ==_iff, count_where, count_where-le-length,
}
use wust_algo_tracker.Prelude.Sorting.{slice_stable, count-slice_stable}
use wust_algo_tracker.Table.{select, delete_where}
use wust_algo_tracker.Contest.Users.{mem}
use wust_algo_tracker.Statistics.Snapshots.{
  FeatureSnapshot, is_personal, is_expired, older, first_ids, drop_overflow, clean,
}

-- Rows whose ids are not among those given.
abbrev is_left : List ℕ → FeatureSnapshot → Bool
is_left ids r = not (mem r.id ids)

-- Of rows whose first n ids are deleted, the others are left at most.
count-is_left :
    (n : ℕ) (ids : List ℕ) (rows : List FeatureSnapshot)
    → all (λ id. mem id ids) (first_ids n rows) ≡ true
    → count_where (is_left ids) rows ≤ length rows - n
unfolding count_where first_ids all
count-is_left zero ids rows h = ground (arith, count_where-le-length (is_left ids) rows)
count-is_left (suc n) ids [] h = omega arith
count-is_left (suc n) ids (r ∷ rows) h = ground (arith, count-is_left n ids rows)

mem-cons :
    (id : ℕ) (ids js : List ℕ)
    → all (λ j. mem j ids) js ≡ true
    → all (λ j. mem j (id ∷ ids)) js ≡ true
unfolding all any
mem-cons id ids [] h = refl
mem-cons id ids (j ∷ js) h = ground (arith, mem-cons id ids js)

mem_self : (ids : List ℕ) → all (λ id. mem id ids) ids ≡ true
unfolding all any
mem_self [] = refl
mem_self (id ∷ ids) = ground (arith, ==_iff id id, mem-cons id ids ids (mem_self ids))

length-count : (rows : List FeatureSnapshot) → count_where (λ r. true) rows ≡ length rows
unfolding count_where
length-count [] = refl
length-count (r ∷ rows) = ap suc (length-count rows)

-- The personal rows that are left when the rows of these ids are deleted.
select-delete :
    (ids : List ℕ) (rows : List FeatureSnapshot)
    → length (select is_personal (delete_where (λ r. mem r.id ids) rows))
      ≡ count_where (is_left ids) (select is_personal rows)
unfolding select delete_where count_where
select-delete ids [] = refl
select-delete ids (r ∷ rows) = ground (arith, select-delete ids rows)

overflow-bound :
    (rows : List FeatureSnapshot) → length (select is_personal (drop_overflow rows)) ≤ 5000
unfolding drop_overflow
overflow-bound rows =
    let personal = select is_personal rows in
    let sorted = slice_stable older personal in
    let n = length personal - 3000 in
    let ids = first_ids n sorted in
    let same =
      sym (length-count sorted)
      ∙ count-slice_stable older (λ r. true) personal
      ∙ length-count personal in
    ground (
      arith,
      select-delete ids rows,
      sym (count-slice_stable older (is_left ids) personal),
      count-is_left n ids sorted (mem_self ids),
      same,
    )

module _ (p : FeatureSnapshot → Bool) where
  all-delete :
      (q : FeatureSnapshot → Bool) (rows : List FeatureSnapshot)
      → all p rows ≡ true
      → all p (delete_where q rows) ≡ true
  unfolding all delete_where
  all-delete q [] h = refl
  all-delete q (r ∷ rows) h = ground (arith, all-delete q rows)

  -- A deletion of personal rows leaves the others.
  select-others :
      (q : FeatureSnapshot → Bool) (rows : List FeatureSnapshot)
      → ((r : FeatureSnapshot) → p r ≡ true → q r ≡ false)
      → select p (delete_where q rows) ≡ select p rows
  unfolding select delete_where
  select-others q [] h = refl
  select-others q (r ∷ rows) h = ground (arith, h r, select-others q rows h)

all-delete_own :
    (q : FeatureSnapshot → Bool) (rows : List FeatureSnapshot)
    → all (λ r. not (q r)) (delete_where q rows) ≡ true
unfolding all delete_where
all-delete_own q [] = refl
all-delete_own q (r ∷ rows) = ground (arith, all-delete_own q rows)

-- A cleanup that is due leaves at most 5000 snapshots of users, none of them past its 30 days.
pub clean-bound :
    (now : ℕ) (rows : List FeatureSnapshot)
    → (length (select is_personal (clean now rows)) ≤ 5000)
      × (all (λ r. not (is_expired now r)) (clean now rows) ≡ true)
unfolding clean drop_overflow
clean-bound now rows =
    let left = delete_where (is_expired now) rows in
    (
      overflow-bound left,
      ground (
        arith,
        all-delete_own (is_expired now) rows,
        all-delete (λ r. not (is_expired now r))
            (λ r. mem r.id (
              first_ids (length (select is_personal left) - 3000)
                (slice_stable older (select is_personal left))))
            left,
      ),
    )
