-- ===== src/Statistics/Achievements/Laws.antt =====
-- The items that achievementMedian sorts, by their places.
use wust_algo_tracker.Prelude.{
  ℕ, zero, suc, ◌+◌, ◌-◌, ◌/◌, ◌%◌, ◌≤◌, ◌<◌, ◌≡◌, refl, ap, ◌∙◌, sym, Bool, true, false, not, some,
  List, [], ◌∷◌, all, length, count_where, count_where-le-length, arith, Bool-cases, inl, inr,
}
use wust_algo_tracker.Prelude.Sorting.{insert, IsSorted, all-insert, count-insert}
use wust_algo_tracker.Statistics.Achievements.{
  Float64, greater, item_at, sort_items, sorted_item, achievement_median, or_zero,
}

-- `is_number` is false for NaN alone: through a number "not less" is transitive, and of two items one
-- is not less than the other.
module _ {F : Type 0} (f : Float64 F) (is_number : F → Bool)
    (trans : (x y z : F)
      → is_number y ≡ true
      → greater f y x ≡ false
      → greater f z y ≡ false
      → greater f z x ≡ false)
    (asym : (x y : F) → greater f y x ≡ true → greater f x y ≡ false) where
  all_trans :
      (x y : F) (zs : List F)
      → is_number y ≡ true
      → greater f y x ≡ false
      → all (λ z. not (greater f z y)) zs ≡ true
      → all (λ z. not (greater f z x)) zs ≡ true
  unfolding all
  all_trans x y [] n h k = refl
  all_trans x y (z ∷ zs) n h k = ground (arith, trans x y z n h, all_trans x y zs n h)

  insert-IsSorted :
      (x : F) (items : List F)
      → all is_number items ≡ true
      → IsSorted (greater f) items
      → IsSorted (greater f) (insert (greater f) x items)
  unfolding insert IsSorted all
  insert-IsSorted x [] n s = (refl, tt)
  insert-IsSorted x (y ∷ ys) n s = elim (Bool-cases (greater f y x)) [
    | inl e ↦ rw e (
      ground (arith, all-insert (greater f) (λ z. not (greater f z y)) x ys, asym x y e, s.0),
      insert-IsSorted x ys (ground arith) s.1,
    )
    | inr e ↦ rw e (ground (arith, e, all_trans x y ys (ground arith) e s.0), s)
  ]

  count-sort_items :
      (p : F → Bool) (before rest : List F)
      → count_where p (sort_items f before rest) ≡ count_where p before + count_where p rest
  unfolding sort_items count_where
  count-sort_items p before [] = omega arith
  count-sort_items p before (x ∷ rest) =
      count-sort_items p (insert (greater f) x before) rest
      ∙ ground (arith, count-insert (greater f) p x before)

  sort_items-IsSorted :
      (before rest : List F)
      → all is_number before ≡ true
      → all is_number rest ≡ true
      → IsSorted (greater f) before
      → IsSorted (greater f) (sort_items f before rest)
  unfolding sort_items all
  sort_items-IsSorted before [] n k s = s
  sort_items-IsSorted before (x ∷ rest) n k s =
      sort_items-IsSorted (insert (greater f) x before) rest
        (ground (arith, all-insert (greater f) is_number x before)) (ground arith)
        (insert-IsSorted x before n s)

  all-item_at :
      (p : F → Bool) (n : ℕ) (items : List F) (m : F)
      → all p items ≡ true
      → item_at n items ≡ some m
      → p m ≡ true
  unfolding all item_at
  all-item_at p n [] m h e = absurd (cc)
  all-item_at p zero (x ∷ items) m h e = ground (arith, e, h)
  all-item_at p (suc n) (x ∷ items) m h e = all-item_at p n items m (ground (arith)) e

  irreflexive : (x : F) → f.less_than x x ≡ false
  irreflexive x = ground (arith, asym x x)

  count-none :
      (m : F) (items : List F)
      → all (λ y. not (greater f y m)) items ≡ true
      → count_where (λ y. f.less_than m y) items ≡ 0
  unfolding count_where all
  count-none m [] h = refl
  count-none m (x ∷ items) h = ground (arith, count-none m items)

  places :
      (n : ℕ) (items : List F) (m : F)
      → IsSorted (greater f) items
      → item_at n items ≡ some m
      → (count_where (λ y. f.less_than m y) items ≤ n)
        × (count_where (λ y. f.less_than y m) items + n < length items)
  unfolding count_where item_at IsSorted all
  places n [] m s e = absurd (cc)
  places zero (x ∷ items) m s e =
      let same : x ≡ m = cc in
      let none_above =
        ap (λ z. count_where (λ y. f.less_than z y) items) (sym same) ∙ count-none x items s.0 in
      ground (
        arith,
        none_above,
        same,
        irreflexive m,
        ap (λ z. f.less_than m z) same,
        ap (λ z. f.less_than z m) same,
        count_where-le-length (λ y. f.less_than y m) items,
      )
  places (suc n) (x ∷ items) m s e =
      ground (arith, places n items m s.1 e, all-item_at (λ y. not (greater f y x)) n items m s.0 e)

  length-insert :
      (x : F) (items : List F) → length (insert (greater f) x items) ≡ suc (length items)
  unfolding insert
  length-insert x [] = refl
  length-insert x (y ∷ items) = ground (arith, length-insert x items)

  sort_items-length :
      (before rest : List F) → length (sort_items f before rest) ≡ length before + length rest
  unfolding sort_items
  sort_items-length before [] = omega arith
  sort_items-length before (x ∷ rest) =
      sort_items-length (insert (greater f) x before) rest ∙ omega (arith, length-insert x before)

  -- The item at place k of n sorted items, none of them NaN, has at most k items less than it and at
  -- most n - 1 - k greater.
  pub sorted_item-places :
      (k : ℕ) (values : List F) (m : F)
      → all is_number values ≡ true
      → k < length values
      → sorted_item f k values ≡ some m
      → (count_where (λ y. f.less_than m y) values ≤ length values - 1 - k)
        × (count_where (λ y. f.less_than y m) values ≤ k)
  unfolding sorted_item IsSorted all
  sorted_item-places k values m n h e = ground (
    arith,
    places (length values - 1 - k) (sort_items f [] values) m
        (sort_items-IsSorted [] values refl n tt) e,
    sort_items-length [] values,
    count-sort_items (λ y. f.less_than m y) [] values,
    count-sort_items (λ y. f.less_than y m) [] values,
  )

  item_at-exists :
      (n : ℕ) (items : List F) → n < length items → (m : F) × (item_at n items ≡ some m)
  unfolding item_at
  item_at-exists n [] h = absurd (omega (arith, h))
  item_at-exists zero (x ∷ items) h = (x, refl)
  item_at-exists (suc n) (x ∷ items) h = item_at-exists n items (omega (arith, h))

  -- Of an odd number of items, none of them NaN, at most half are less than the median and at most
  -- half greater, when `<` is asymmetric and "not less" is transitive through a number.
  pub achievement_median-middle :
      (values : List F)
      → all is_number values ≡ true
      → length values % 2 ≡ 1
      → (count_where (λ y. f.less_than (achievement_median f values) y) values ≤ length values / 2)
        × (count_where (λ y. f.less_than y (achievement_median f values)) values
            ≤ length values / 2)
  unfolding achievement_median sorted_item
  achievement_median-middle values n odd =
      let found =
        item_at-exists (length values - 1 - length values / 2) (sort_items f [] values)
          (omega (arith, odd, sort_items-length [] values)) in
      let half =
        sorted_item-places (length values / 2) values found.0 n (omega (arith, odd)) found.1 in
      let same : achievement_median f values ≡ found.0 =
        ground (arith, ap (or_zero f) found.1, odd) in
      let less = ap (λ m. count_where (λ y. f.less_than m y) values) same in
      let more = ap (λ m. count_where (λ y. f.less_than y m) values) same in
      ground (arith, less, more, half, odd)
