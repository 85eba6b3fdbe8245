-- ===== src/Team/Ensured.antt =====
-- What ensureGroupOwner leaves behind, on a group that was read from the database.
use mathlib.Core.Path.{subst}
use wust_algo_tracker.Prelude.{
  ℕ, ◌≡◌, ◌≢◌, refl, true, not, Option, none, some, ◌⊎◌, inl, inr, arith, ◌==◌, Option-cases,
  Bool-cases, ◌||◌,
}
use wust_algo_tracker.Table.{find}
use wust_algo_tracker.Table.Laws.{get-key, find_sound}
use wust_algo_tracker.Table.Distinct.{get-find}
use wust_algo_tracker.User.Db.{User, Group, Db, user_key, group_key, user_at, group_at, in_group}
use wust_algo_tracker.User.Tx.{return}
use wust_algo_tracker.User.Tx.Yields.{Yields, Yields-return, Yields-write}
use wust_algo_tracker.Team.Owner.{set_owner, pick_owner, ensure_group_owner}
use wust_algo_tracker.Team.Valid.{IsValid, set_owner-IsValid, group-set_owner}

-- After ensureGroupOwner on a group that was read from the database.
pub record Ensured (db : Db) (g : ℕ) (group : Group) (after : Db) : Type 0 where
  pub valid : IsValid after
  pub users : (k : ℕ) → user_at after k ≡ user_at db k
  pub at : group_at after g ≡ some group
  pub kept : (r : Group) → group_at db g ≡ some r → (r.owner_id ≡ 0) ⊎ (r.owner_id ≡ group.owner_id)
  pub others : (h : ℕ) → h ≢ g → group_at after h ≡ group_at db h

set_owner-Ensured :
    (g k : ℕ) (group : Group) (db : Db)
    → IsValid db
    → group_at db g ≡ some group
    → group.owner_id ≡ 0
    → in_group g (user_at db k) ≡ true
    → Ensured db g (record group { owner_id = k }) (set_owner g k db)
unfolding set_owner
set_owner-Ensured g k group db v at free m = record {
  valid = unfold set_owner in set_owner-IsValid g k db v (λ nz. m);
  users = λ j. refl;
  at = ground (arith, group-set_owner g k g db, get-key group_key g group db.groups);
  kept = λ r e. inl (ground arith);
  others = λ h ne. elim (Option-cases (group_at db h)) [
    | inl e ↦ ground (arith, group-set_owner g k h db)
    | inr (r, e) ↦ ground (arith, group-set_owner g k h db, get-key group_key h r db.groups)
  ];
}

same-Ensured :
    (g : ℕ) (group : Group) (db : Db)
    → IsValid db
    → group_at db g ≡ some group
    → Ensured db g group db
same-Ensured g group db v at = record {
  valid = v;
  users = λ j. refl;
  at = at;
  kept = λ r e. inr (ground arith);
  others = λ h ne. refl;
}

pick-Ensured :
    (g : ℕ) (group : Group) (o : Option User) (db : Db)
    → IsValid db
    → group_at db g ≡ some group
    → group.owner_id ≡ 0
    → find (λ u. u.group_id == group.id) db.users ≡ o
    → Yields (Ensured db g) (pick_owner group o db)
pick-Ensured g group none db v at free f =
    unfold pick_owner in Yields-return (Ensured db g) group db (same-Ensured g group db v at)
pick-Ensured g group (some u) db v at free f =
    let i : group.id ≡ g = get-key group_key g group db.groups at in
    let m : in_group group.id (user_at db u.id) ≡ true = ground (
      arith,
      get-find user_key (λ w. w.group_id == group.id) u db.users v.distinct f,
      find_sound (λ w. w.group_id == group.id) u db.users f,
    ) in
    let at' : group_at db group.id ≡ some group = ground (arith, i) in
    unfold pick_owner in
    Yields-write (Ensured db g) (set_owner group.id u.id)
      (return (record group { owner_id = u.id })) db
      (Yields-return (Ensured db g) (record group { owner_id = u.id }) (set_owner group.id u.id db)
        (subst (λ h. Ensured db h (record group { owner_id = u.id }) (set_owner group.id u.id db)) i
          (set_owner-Ensured group.id u.id group db v at' free m)))

pub ensure-Ensured :
    (g : ℕ) (group : Group) (db : Db)
    → IsValid db
    → group_at db g ≡ some group
    → Yields (Ensured db g) (ensure_group_owner group db)
unfolding ensure_group_owner
ensure-Ensured g group db v at = elim (Bool-cases (group.id == 0 || not (group.owner_id == 0))) [
  | inl e ↦ rw e (Yields-return (Ensured db g) group db (same-Ensured g group db v at))
  | inr e ↦ rw e (
      pick-Ensured g group (find (λ u. u.group_id == group.id) db.users) db v at (ground arith)
        refl)
]
