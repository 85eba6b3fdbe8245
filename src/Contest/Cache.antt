-- ===== src/Contest/Cache.antt =====
-- ttlCache (app/core_data/internal/service/contest_meta_cache.go): a map whose entries expire. The
-- mutex makes each call one step; the clock is an argument.
pub mod Laws
use wust_algo_tracker.Prelude.{
  ℕ, ◌+◌, String, ◌==◌, ltb, Option, none, some, List, [], ◌∷◌, str_eq, if◌then◌else◌,
}

pub record TtlCacheEntry (A : Type 0) : Type 0 where
  pub value : A
  pub expires_at : ℕ

pub record TtlCache (A : Type 0) : Type 0 where
  pub ttl : ℕ
  pub entries : List (String × TtlCacheEntry A)

module _ {A : Type 0} where
  -- newTTLCache
  unfoldable pub new_ttl_cache : ℕ → TtlCache A
  new_ttl_cache ttl = record { ttl = ttl; entries = [] }

  unfoldable pub find_entry : String → List (String × TtlCacheEntry A) → Option (TtlCacheEntry A)
  find_entry key [] = none
  find_entry key ((k, e) ∷ entries) = if str_eq k key then some e else find_entry key entries

  -- `delete(c.entries, key)`
  unfoldable pub delete_entry :
      String → List (String × TtlCacheEntry A) → List (String × TtlCacheEntry A)
  delete_entry key [] = []
  delete_entry key ((k, e) ∷ entries) =
      if str_eq k key then delete_entry key entries else (k, e) ∷ delete_entry key entries

  -- Get
  unfoldable pub get : ℕ → String → TtlCache A → Option A × TtlCache A
  unfolding find_entry delete_entry
  get now key c = elim (find_entry key c.entries) [
    | none ↦ (none, c)
    | some e ↦
        if ltb e.expires_at now
        then (none, record c { entries = delete_entry key c.entries })
        else (some e.value, c)
  ]

  -- SetWithTTL, for a lifetime that is 0 where it is not positive
  unfoldable pub set_with_ttl : ℕ → String → A → ℕ → TtlCache A → TtlCache A
  unfolding delete_entry
  set_with_ttl now key value ttl c =
      let lifetime = if ttl == 0 then c.ttl else ttl in
      let entry : TtlCacheEntry A = record { value = value; expires_at = now + lifetime } in
      record c { entries = (key, entry) ∷ delete_entry key c.entries }

  -- Set
  unfoldable pub set : ℕ → String → A → TtlCache A → TtlCache A
  unfolding set_with_ttl
  set now key value c = set_with_ttl now key value c.ttl c
