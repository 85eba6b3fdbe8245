-- ===== src/Statistics/Snapshots.antt =====
-- The table feature_snapshots: cleanupExpiredFeatureSnapshots, GetFeatureSnapshot and
-- SaveFeatureSnapshot (app/core_data/internal/service/statistic_ops.go). Times are seconds. json.Valid
-- is a parameter, and so is `jsonb`: the text that PostgreSQL gives back for a jsonb column, or `none`
-- where it refuses the text. The operation log is left out. An id of a request that is not positive is 0.
pub mod Cleaned
pub mod Laws
use wust_algo_tracker.Prelude.{
  ℕ, zero, suc, ◌+◌, ◌-◌, String, Bool, true, false, not, ◌&&◌, ◌||◌, ◌==◌, ltb, Option, none, some,
  List, [], ◌∷◌, ◌++◌, map, any, length, str_eq, if◌then◌else◌,
}
use wust_algo_tracker.Prelude.Sorting.{slice_stable}
use wust_algo_tracker.Table.{find, select, delete_where}
use wust_algo_tracker.Text.{is_empty, trim_space}
use wust_algo_tracker.Permission.{Ctx}
use wust_algo_tracker.Spider.Service.{can_view_user_detail}
use wust_algo_tracker.Contest.Users.{mem}

-- The `user_id` of a row: that of a user, or -1 for the whole site.
pub data Owner : Type 0 where
  site : Owner
  user : ℕ → Owner

-- model.FeatureSnapshot: `payload` is the text that is read from the jsonb column.
pub record FeatureSnapshot : Type 0 where
  pub id : ℕ
  pub owner : Owner
  pub kind : String
  pub source_hash : String
  pub payload : String
  pub generated_at : ℕ

-- The table, and featureSnapshotLastCleanup, which is `none` at first.
pub record Store : Type 0 where
  pub snapshots : List FeatureSnapshot
  pub next_id : ℕ
  pub last_cleanup : Option ℕ

abbrev pub is_user : Owner → Bool
is_user Owner.site = false
is_user (Owner.user id) = ltb 0 id

abbrev pub is_kind : String → Bool
is_kind kind = str_eq kind "weekly_report" || str_eq kind "achievement"

-- `user_id > 0 AND kind IN ('weekly_report', 'achievement')`
abbrev pub is_personal : FeatureSnapshot → Bool
is_personal r = is_user r.owner && is_kind r.kind

abbrev pub older : FeatureSnapshot → FeatureSnapshot → Bool
older r s = ltb r.generated_at s.generated_at

unfoldable pub first_ids : ℕ → List FeatureSnapshot → List ℕ
first_ids zero rows = []
first_ids (suc n) [] = []
first_ids (suc n) (r ∷ rows) = r.id ∷ first_ids n rows

-- The rows that are past their 30 days.
abbrev pub is_expired : ℕ → FeatureSnapshot → Bool
is_expired now r = is_personal r && ltb (r.generated_at + 2592000) now

-- Where more than 5000 rows are left, the oldest go until 3000 are.
unfoldable pub drop_overflow : List FeatureSnapshot → List FeatureSnapshot
unfolding select delete_where slice_stable first_ids any
drop_overflow rows =
    let personal = select is_personal rows in
    let ids = first_ids (length personal - 3000) (slice_stable older personal) in
    if ltb 5000 (length personal) then delete_where (λ r. mem r.id ids) rows else rows

-- The cleanup, once it is due.
unfoldable pub clean : ℕ → List FeatureSnapshot → List FeatureSnapshot
unfolding drop_overflow delete_where
clean now rows = drop_overflow (delete_where (is_expired now) rows)

abbrev pub is_due : ℕ → Option ℕ → Bool
is_due now none = true
is_due now (some t) = not (ltb now (t + 3600))

-- cleanupExpiredFeatureSnapshots, which runs once an hour
unfoldable pub cleanup_expired_feature_snapshots : ℕ → Store → Store
unfolding clean
cleanup_expired_feature_snapshots now s =
    if is_due now s.last_cleanup
    then record s { snapshots = clean now s.snapshots; last_cleanup = some now }
    else s

-- normalizeSnapshotKind
unfoldable pub normalize_snapshot_kind : String → Option String
unfolding trim_space
normalize_snapshot_kind kind = if is_kind (trim_space kind) then some (trim_space kind) else none

abbrev pub is_owned_by : Owner → Owner → Bool
is_owned_by Owner.site Owner.site = true
is_owned_by (Owner.user i) (Owner.user j) = i == j
is_owned_by Owner.site (Owner.user j) = false
is_owned_by (Owner.user i) Owner.site = false

abbrev pub is_snapshot_of : ℕ → String → FeatureSnapshot → Bool
is_snapshot_of user_id kind r = is_owned_by r.owner (Owner.user user_id) && str_eq r.kind kind

-- FeatureSnapshotResponse, without the code, the message and the echo of the request
pub record SnapshotResponse : Type 0 where
  pub source_hash : String
  pub payload : String
  pub exists : Bool
  pub stale : Bool
  pub generated_at : ℕ

pub data SnapshotReply : Type 0 where
  no_user bad_kind no_permission bad_payload save_failed : SnapshotReply
  snapshot : SnapshotResponse → SnapshotReply

-- `Where(...).Assign(...).FirstOrCreate(&snapshot)`: of a row that is there, gorm leaves a field as it
-- is for which the assigned one is zero.
unfoldable pub assign :
    ℕ → ℕ → String → String → String → ℕ → List FeatureSnapshot → List FeatureSnapshot
assign id user_id kind source_hash payload now [] =
    record {
      id = id;
      owner = Owner.user user_id;
      kind = kind;
      source_hash = source_hash;
      payload = payload;
      generated_at = now;
    }
    ∷ []
assign id user_id kind source_hash payload now (r ∷ rows) =
    let rest = assign id user_id kind source_hash payload now rows in
    if is_snapshot_of user_id kind r
    then record r {
      source_hash = if is_empty source_hash then r.source_hash else source_hash;
      payload = payload;
      generated_at = now;
    }
      ∷ rows
    else r ∷ rest

-- `payload == "" || payload == "null"`
abbrev pub payload_of : String → String
payload_of payload = if is_empty payload || str_eq payload "null" then "{}" else payload

module _ (valid : String → Bool) where
  unfoldable pub response_of : String → Option FeatureSnapshot → SnapshotResponse
  response_of source_hash none = record {
    source_hash = "";
    payload = "{}";
    exists = false;
    stale = true;
    generated_at = 0;
  }
  response_of source_hash (some r) = record {
    source_hash = r.source_hash;
    payload = if valid r.payload then r.payload else "{}";
    exists = true;
    stale = not (is_empty source_hash) && not (str_eq r.source_hash source_hash);
    generated_at = r.generated_at;
  }

  -- The checks that both handlers make of a request.
  unfoldable pub checked :
      Ctx → ℕ → Option String → (String → SnapshotReply × Store) → Store → SnapshotReply × Store
  unfolding can_view_user_detail
  checked ctx user_id none continue s =
      (if user_id == 0 then SnapshotReply.no_user else SnapshotReply.bad_kind, s)
  checked ctx user_id (some kind) continue s =
      let r = continue kind in
      if user_id == 0
      then (SnapshotReply.no_user, s)
      else if can_view_user_detail ctx user_id
      then r
      else (SnapshotReply.no_permission, s)

  -- GetFeatureSnapshot
  unfoldable pub get_feature_snapshot :
      ℕ → Ctx → ℕ → String → String → Store → SnapshotReply × Store
  unfolding cleanup_expired_feature_snapshots normalize_snapshot_kind checked response_of find
  get_feature_snapshot now ctx user_id kind source_hash before =
      let s = cleanup_expired_feature_snapshots now before in
      checked ctx user_id (normalize_snapshot_kind kind)
        (λ k. (
          SnapshotReply.snapshot
              (response_of source_hash (find (is_snapshot_of user_id k) s.snapshots)),
          s,
        ))
        s

  module _ (jsonb : String → Option String) where
    -- The reply of a save that has succeeded, with the hash and the payload as they were sent.
    unfoldable pub stored_reply :
        ℕ → ℕ → String → String → String → Option String → Store → SnapshotReply × Store
    unfolding assign trim_space
    stored_reply now user_id raw_hash payload kind none s = (SnapshotReply.save_failed, s)
    stored_reply now user_id raw_hash payload kind (some text) s = (
      SnapshotReply.snapshot record {
        source_hash = raw_hash;
        payload = payload;
        exists = true;
        stale = false;
        generated_at = now;
      },
      record s {
        snapshots = assign s.next_id user_id kind (trim_space raw_hash) text now s.snapshots;
        next_id = suc s.next_id;
      },
    )

    -- SaveFeatureSnapshot, once the request is checked
    unfoldable pub save_snapshot : ℕ → ℕ → String → String → String → Store → SnapshotReply × Store
    unfolding stored_reply trim_space
    save_snapshot now user_id raw_hash raw_payload kind s =
        let payload = payload_of (trim_space raw_payload) in
        if valid payload
        then stored_reply now user_id raw_hash payload kind (jsonb payload) s
        else (SnapshotReply.bad_payload, s)

    -- SaveFeatureSnapshot
    unfoldable pub save_feature_snapshot :
        ℕ → Ctx → ℕ → String → String → String → Store → SnapshotReply × Store
    unfolding cleanup_expired_feature_snapshots normalize_snapshot_kind checked save_snapshot
    save_feature_snapshot now ctx user_id kind source_hash payload before =
        let s = cleanup_expired_feature_snapshots now before in
        checked ctx user_id (normalize_snapshot_kind kind)
          (λ k. save_snapshot now user_id source_hash payload k s) s
