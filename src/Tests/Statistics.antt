-- ===== src/Tests/Statistics.antt =====
-- A snapshot that a user saves and reads, and a cleanup.
use wust_algo_tracker.Prelude.{
  ◌≤◌, ◌≡◌, refl, String, Bool, true, false, not, Option, some, [], ◌∷◌, all, length,
}
use wust_algo_tracker.Table.{select}
use wust_algo_tracker.Text.{trim_space}
use wust_algo_tracker.Permission.{JwtPayload}
use wust_algo_tracker.Statistics.Snapshots.{
  FeatureSnapshot, Store, SnapshotReply, Owner, is_personal, is_expired, clean, payload_of,
  save_feature_snapshot, get_feature_snapshot,
}
use wust_algo_tracker.Statistics.Snapshots.Cleaned.{clean-bound}
use wust_algo_tracker.Statistics.Snapshots.Laws.{save_feature_snapshot-get}

abbrev is_json : String → Bool
is_json text = true

abbrev reader : JwtPayload
reader = record { user_id = 3; username = "u"; name = "U"; email = ""; role_id = 0 }

abbrev old_row : FeatureSnapshot
old_row = record {
  id = 1;
  owner = Owner.user 3;
  kind = "achievement";
  source_hash = "old";
  payload = "{}";
  generated_at = 4000000;
}

abbrev store : Store
store = record { snapshots = old_row ∷ []; next_id = 2; last_cleanup = some 4000000 }

-- Every text is kept as it is.
abbrev jsonb : String → Option String
jsonb text = some text

save_feature_snapshot-get_example :
    (y : String) × ((jsonb (payload_of (trim_space "null")) ≡ some y)
      × ((get_feature_snapshot is_json 4000200
            (some reader)
            3
            " achievement"
            (trim_space "h1 ")
            (save_feature_snapshot is_json jsonb 4000100
              (some reader)
              3
              " achievement"
              "h1 "
              "null"
              store).1).0
          ≡ SnapshotReply.snapshot record {
            source_hash = trim_space "h1 ";
            payload = y;
            exists = true;
            stale = false;
            generated_at = 4000100;
          }))
unfolding save_feature_snapshot trim_space
save_feature_snapshot-get_example =
    save_feature_snapshot-get is_json jsonb 4000100 4000200 (some reader) 3 " achievement" "h1 "
      "null" store (λ x y e. refl) refl refl refl

clean-bound_example :
    (length (select is_personal (clean 9000000 (old_row ∷ []))) ≤ 5000)
    × (all (λ r. not (is_expired 9000000 r)) (clean 9000000 (old_row ∷ [])) ≡ true)
clean-bound_example = clean-bound 9000000 (old_row ∷ [])
