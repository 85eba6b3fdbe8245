-- ===== src/Statistics/Snapshots/Laws.antt =====
-- A snapshot that is saved is found again.
use wust_algo_tracker.Prelude.{
  ℕ, ◌≡◌, refl, ap, ◌∙◌, String, Bool, true, false, ◌==◌, Option, none, some, List, [], ◌∷◌, arith,
  str_eq_iff, ==_iff, if◌then◌else◌, Option-cases, inl, inr, suc,
}
use wust_algo_tracker.Table.{find}
use wust_algo_tracker.Text.{is_empty, trim_space}
use wust_algo_tracker.Permission.{Ctx}
use wust_algo_tracker.Spider.Service.{can_view_user_detail}
use wust_algo_tracker.Statistics.Snapshots.{
  FeatureSnapshot, Store, SnapshotReply, Owner, is_due, is_snapshot_of, assign, payload_of,
  response_of, checked, normalize_snapshot_kind, cleanup_expired_feature_snapshots,
  get_feature_snapshot, stored_reply, save_snapshot, save_feature_snapshot,
}

-- The row that a save leaves where this one was found.
abbrev pub assigned :
    ℕ → ℕ → String → String → String → ℕ → Option FeatureSnapshot → FeatureSnapshot
assigned id user_id kind hash payload now none = record {
  id = id;
  owner = Owner.user user_id;
  kind = kind;
  source_hash = hash;
  payload = payload;
  generated_at = now;
}
assigned id user_id kind hash payload now (some r) = record r {
  source_hash = if is_empty hash then r.source_hash else hash;
  payload = payload;
  generated_at = now;
}

find-assign :
    (id user_id : ℕ) (kind hash payload : String) (now : ℕ) (rows : List FeatureSnapshot)
    → find (is_snapshot_of user_id kind) (assign id user_id kind hash payload now rows)
      ≡ some (assigned id user_id kind hash payload now (find (is_snapshot_of user_id kind) rows))
unfolding find assign
find-assign id user_id kind hash payload now [] =
    ground (arith, ==_iff user_id user_id, str_eq_iff kind kind)
find-assign id user_id kind hash payload now (r ∷ rows) =
    ground (arith, find-assign id user_id kind hash payload now rows)

abbrev pub is_snapshot : SnapshotReply → Bool
is_snapshot reply = elim reply [ SnapshotReply.snapshot r ↦ true | _ ↦ false ]

module _ (valid : String → Bool) (jsonb : String → Option String) where
  -- What a save that succeeds has met, and the store that it leaves.
  record Saved (t : ℕ) (ctx : Ctx) (user_id : ℕ) (kind hash payload : String) (s : Store)
      : Type 0 where
    k : String
    of_kind : normalize_snapshot_kind kind ≡ some k
    of_user : (user_id == 0) ≡ false
    allowed : can_view_user_detail ctx user_id ≡ true
    text : String
    of_text : jsonb (payload_of (trim_space payload)) ≡ some text
    stored : (save_feature_snapshot valid jsonb t ctx user_id kind hash payload s).1 ≡ (
        let c = cleanup_expired_feature_snapshots t s in
        record c {
          snapshots = assign c.next_id user_id k (trim_space hash) text t c.snapshots;
          next_id = suc c.next_id;
        })

  saved :
      (t : ℕ) (ctx : Ctx) (user_id : ℕ) (kind hash payload : String) (s : Store)
      → is_snapshot (save_feature_snapshot valid jsonb t ctx user_id kind hash payload s).0 ≡ true
      → Saved t ctx user_id kind hash payload s
  unfolding save_feature_snapshot save_snapshot stored_reply checked
  saved t ctx user_id kind hash payload s h = elim (Option-cases (normalize_snapshot_kind kind)) [
    | inl g ↦ absurd (ground (arith, h, g))
    | inr (c, g) ↦ elim (Option-cases (jsonb (payload_of (trim_space payload)))) [
      | inl n ↦ absurd (ground (arith, h, g, n))
      | inr (x, n) ↦ record {
        k = c;
        of_kind = g;
        of_user = ground (arith, h, g, n);
        allowed = ground (arith, h, g, n);
        text = x;
        of_text = n;
        stored = ground (arith, h, g, n);
      }
    ]
  ]

  -- Where no cleanup is due, the handler answers by the row that it finds.
  get-found :
      (now : ℕ) (ctx : Ctx) (user_id : ℕ) (kind hash k : String) (c : Store)
      → is_due now c.last_cleanup ≡ false
      → normalize_snapshot_kind kind ≡ some k
      → (user_id == 0) ≡ false
      → can_view_user_detail ctx user_id ≡ true
      → (get_feature_snapshot valid now ctx user_id kind hash c).0
        ≡ SnapshotReply.snapshot
            (response_of valid hash (find (is_snapshot_of user_id k) c.snapshots))
  unfolding get_feature_snapshot checked cleanup_expired_feature_snapshots
  get-found now ctx user_id kind hash k c d g z a = rw (g, d, z, a) refl

  -- The answer for a row that a save has left.
  response-assigned :
      (id user_id : ℕ) (kind hash payload : String) (t : ℕ) (o : Option FeatureSnapshot)
      → valid payload ≡ true
      → is_empty hash ≡ false
      → response_of valid hash (some (assigned id user_id kind hash payload t o)) ≡ record {
        source_hash = hash;
        payload = payload;
        exists = true;
        stale = false;
        generated_at = t;
      }
  unfolding response_of
  response-assigned id user_id kind hash payload t none v e =
      ground (arith, v, e, str_eq_iff hash hash)
  response-assigned id user_id kind hash payload t (some r) v e =
      ground (arith, v, e, str_eq_iff hash hash)

  -- Where a snapshot has been saved under a hash that is not blank and the next cleanup is not yet
  -- due, it is found for the same caller, user and kind: not stale for the trimmed hash, and with
  -- the text that PostgreSQL gives back for the trimmed payload, or for "{}" where that is empty or
  -- "null". What PostgreSQL gives back is valid JSON.
  pub save_feature_snapshot-get :
      (t now : ℕ) (ctx : Ctx) (user_id : ℕ) (kind hash payload : String) (s : Store)
      → ((x y : String) → jsonb x ≡ some y → valid y ≡ true)
      → is_snapshot (save_feature_snapshot valid jsonb t ctx user_id kind hash payload s).0 ≡ true
      → is_due now
          (save_feature_snapshot valid jsonb t ctx user_id kind hash payload s).1.last_cleanup
        ≡ false
      → is_empty (trim_space hash) ≡ false
      → (y : String) × ((jsonb (payload_of (trim_space payload)) ≡ some y)
          × ((get_feature_snapshot valid now ctx user_id kind
                (trim_space hash)
                (save_feature_snapshot valid jsonb t ctx user_id kind hash payload s).1).0
              ≡ SnapshotReply.snapshot record {
                source_hash = trim_space hash;
                payload = y;
                exists = true;
                stale = false;
                generated_at = t;
              }))
  save_feature_snapshot-get t now ctx user_id kind hash payload s prints h d e =
      let a = saved t ctx user_id kind hash payload s h in
      let name = trim_space hash in
      let c = cleanup_expired_feature_snapshots t s in
      (
        a.text,
        (
          a.of_text,
          get-found now ctx user_id kind name a.k _ d a.of_kind a.of_user a.allowed
              ∙ ap
                  (λ x. SnapshotReply.snapshot (
                    response_of valid name (find (is_snapshot_of user_id a.k) (Store.snapshots x))))
                  a.stored
              ∙ ap (λ o. SnapshotReply.snapshot (response_of valid name o))
                  (find-assign c.next_id user_id a.k name a.text t c.snapshots)
              ∙ ap SnapshotReply.snapshot (
                  response-assigned c.next_id user_id a.k name a.text t
                    (find (is_snapshot_of user_id a.k) c.snapshots) (prints _ a.text a.of_text) e),
        ),
      )
