-- ===== src/Contest/Cache/Laws.antt =====
-- The cache as its history: what Get answers, whichever entries the calls before have deleted.
use wust_algo_tracker.Prelude.{
  ℕ, ◌+◌, ◌≤◌, ◌≡◌, refl, String, Bool, true, ◌&&◌, ◌==◌, ltb, leb, Option, none, some, List, [],
  ◌∷◌, arith, str_eq, str_eq_iff, if◌then◌else◌,
}
use wust_algo_tracker.Contest.Cache.{
  TtlCache, TtlCacheEntry, new_ttl_cache, find_entry, delete_entry, get, set_with_ttl,
}

-- A call, with the time at which it is made.
pub data Call (A : Type 0) : Type 0 where
  get_at : ℕ → String → Call A
  set_at : ℕ → String → A → ℕ → Call A

module _ {A : Type 0} where
  abbrev pub time_of : Call A → ℕ
  time_of (Call.get_at t key) = t
  time_of (Call.set_at t key value ttl) = t

  unfoldable pub step : Call A → TtlCache A → TtlCache A
  unfolding get set_with_ttl
  step (Call.get_at t key) c = (get t key c).1
  step (Call.set_at t key value ttl) c = set_with_ttl t key value ttl c

  -- The cache after calls, the last of which stands first.
  unfoldable pub after : ℕ → List (Call A) → TtlCache A
  unfolding step new_ttl_cache
  after ttl [] = new_ttl_cache ttl
  after ttl (call ∷ calls) = step call (after ttl calls)

  -- No call is later than the one that follows it, or than now.
  abbrev pub is_chronological : ℕ → List (Call A) → Bool
  is_chronological now [] = true
  is_chronological now (call ∷ calls) =
      leb (time_of call) now && is_chronological (time_of call) calls

  -- The value last set at a key, and when it expires.
  unfoldable pub last_set : ℕ → String → List (Call A) → Option (TtlCacheEntry A)
  last_set ttl key [] = none
  last_set ttl key (Call.get_at t k ∷ calls) = last_set ttl key calls
  last_set ttl key (Call.set_at t k value lifetime ∷ calls) =
      if str_eq k key
      then some record { value = value; expires_at = t + (if lifetime == 0 then ttl else lifetime) }
      else last_set ttl key calls

  abbrev pub live : ℕ → Option (TtlCacheEntry A) → Option A
  live now none = none
  live now (some e) = if ltb e.expires_at now then none else some e.value

  find-delete :
      (key k : String) (entries : List (String × TtlCacheEntry A))
      → find_entry key (delete_entry k entries)
        ≡ (if str_eq k key then none else find_entry key entries)
  unfolding find_entry delete_entry
  find-delete key k [] = ground arith
  find-delete key k ((j, e) ∷ entries) =
      ground (arith, str_eq_iff j k, str_eq_iff k key, str_eq_iff j key, find-delete key k entries)

  ttl-after : (ttl : ℕ) (calls : List (Call A)) → (after ttl calls).ttl ≡ ttl
  unfolding after step get set_with_ttl new_ttl_cache
  ttl-after ttl [] = refl
  ttl-after ttl (Call.get_at t k ∷ calls) = ground (arith, ttl-after ttl calls)
  ttl-after ttl (Call.set_at t k v l ∷ calls) = ttl-after ttl calls

  chronological-later :
      (s t : ℕ) (calls : List (Call A))
      → s ≤ t
      → is_chronological s calls ≡ true
      → is_chronological t calls ≡ true
  chronological-later s t [] h c = refl
  chronological-later s t (call ∷ calls) h c = ground (arith, h)

  live-after :
      (ttl now : ℕ) (key : String) (calls : List (Call A))
      → is_chronological now calls ≡ true
      → live now (find_entry key (after ttl calls).entries) ≡ live now (last_set ttl key calls)
  unfolding after step get set_with_ttl new_ttl_cache last_set find_entry
  live-after ttl now key [] h = refl
  live-after ttl now key (Call.get_at t k ∷ calls) h = ground (
    arith,
    str_eq_iff k key,
    find-delete key k (after ttl calls).entries,
    live-after ttl now key calls,
    chronological-later t now calls,
  )
  live-after ttl now key (Call.set_at t k v l ∷ calls) h = ground (
    arith,
    str_eq_iff k key,
    find-delete key k (after ttl calls).entries,
    ttl-after ttl calls,
    live-after ttl now key calls,
    chronological-later t now calls,
  )

  -- After calls made in the order of their times, Get answers with the value last set at the key if
  -- its lifetime is not over, and with nothing otherwise.
  pub get-last_set :
      (ttl now : ℕ) (key : String) (calls : List (Call A))
      → is_chronological now calls ≡ true
      → (get now key (after ttl calls)).0 ≡ live now (last_set ttl key calls)
  unfolding get
  get-last_set ttl now key calls h = ground (arith, live-after ttl now key calls h)
