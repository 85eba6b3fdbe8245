-- ===== src/Team/Valid.antt =====
-- What holds of users and groups between two calls, and that each write keeps it.
use mathlib.Core.Option
use wust_algo_tracker.Prelude.{
  ℕ, suc, ◌≤◌, ◌<◌, ◌≡◌, ◌≢◌, refl, Bool, true, false, Option, none, some, ◌⊎◌, inl, inr, arith,
  ◌==◌, Option-cases, if◌then◌else◌,
}
use wust_algo_tracker.Table.{get, update_where}
use wust_algo_tracker.Table.Laws.{or_row, get-key, get-update}
use wust_algo_tracker.Table.Distinct.{Distinct, update-Distinct}
use wust_algo_tracker.User.Db.{User, Group, Db, user_key, group_key, user_at, group_at, in_group}
use wust_algo_tracker.Team.Owner.{set_group, reset_members, set_owner}

abbrev pub is_some : {A : Type 0} → Option A → Bool
is_some none = false
is_some (some a) = true

-- Every owner is a member, every member's group is there, and the keys that the sequence has not
-- given out yet are free.
pub record IsValid (db : Db) : Type 0 where
  pub owned :
      (g : ℕ) (r : Group)
      → group_at db g ≡ some r
      → r.owner_id ≢ 0
      → in_group g (user_at db r.owner_id) ≡ true
  pub grouped :
      (k : ℕ) (u : User)
      → user_at db k ≡ some u
      → u.group_id ≢ 0
      → is_some (group_at db u.group_id) ≡ true
  pub zero_free : group_at db 0 ≡ none
  pub fresh : (g : ℕ) → db.next_group ≤ g → group_at db g ≡ none
  pub next_pos : 0 < db.next_group
  pub user_fresh : (k : ℕ) → db.next_user ≤ k → user_at db k ≡ none
  pub distinct : Distinct user_key db.users

abbrev pub put_group : ℕ → ℕ → User → User
put_group k g u = if u.id == k then record u { group_id = g } else u

pub user-set_group :
    (k g j : ℕ) (db : Db) → user_at (set_group k g db) j ≡ Option.map (put_group k g) (user_at db j)
unfolding set_group
user-set_group k g j db =
    get-update user_key j (λ u. u.id == k) (λ u. record u { group_id = g }) db.users (λ u. refl)

-- The user of this id is no owner.
abbrev pub OwnsNothing : ℕ → Db → Type 0
OwnsNothing k db = (g : ℕ) (r : Group) → group_at db g ≡ some r → r.owner_id ≢ 0 → r.owner_id ≢ k

in_group-set_group :
    (h k g j : ℕ) (db : Db)
    → j ≢ k
    → in_group h (user_at db j) ≡ true
    → in_group h (user_at (set_group k g db) j) ≡ true
in_group-set_group h k g j db ne i = elim (Option-cases (user_at db j)) [
  | inl e ↦ ground arith
  | inr (u, e) ↦ rw user-set_group (ground (arith, get-key user_key j u db.users))
]

-- A user who owns nothing may leave, or join a group that is there.
pub set_group-IsValid :
    (k g : ℕ) (db : Db)
    → IsValid db
    → OwnsNothing k db
    → (g ≡ 0) ⊎ (is_some (group_at db g) ≡ true)
    → IsValid (set_group k g db)
unfolding set_group
set_group-IsValid k g db v o there = record {
  owned = λ h r e z. in_group-set_group h k g r.owner_id db (o h r e z) (v.owned h r e z);
  grouped = λ j u e z. elim (Option-cases (user_at db j)) [
    | inl n ↦ ground (arith, user-set_group k g j db)
    | inr (w, s) ↦ ground (arith, user-set_group k g j db, v.grouped j w)
  ];
  zero_free = v.zero_free;
  fresh = v.fresh;
  next_pos = v.next_pos;
  user_fresh = λ j l. ground (arith, user-set_group k g j db, v.user_fresh j);
  distinct =
      update-Distinct user_key (λ u. u.id == k) (λ u. record u { group_id = g }) db.users
        (λ u. refl) v.distinct;
}

abbrev pub leave_group : ℕ → User → User
leave_group g u = if u.group_id == g then record u { group_id = 0 } else u

pub user-reset_members :
    (g j : ℕ) (db : Db) → user_at (reset_members g db) j ≡ Option.map (leave_group g) (user_at db j)
unfolding reset_members
user-reset_members g j db =
    get-update user_key j (λ u. u.group_id == g) (λ u. record u { group_id = 0 }) db.users
      (λ u. refl)

-- A group that is gone, with its members out of it.
pub disbanded-IsValid :
    (g : ℕ) (db after : Db)
    → IsValid db
    → ((j : ℕ) → user_at after j ≡ Option.map (leave_group g) (user_at db j))
    → ((h : ℕ) → group_at after h ≡ (if h == g then none else group_at db h))
    → after.next_group ≡ db.next_group
    → after.next_user ≡ db.next_user
    → Distinct user_key after.users
    → IsValid after
disbanded-IsValid g db after v us gs n nu d = record {
  owned = λ h r e z. elim (Option-cases (user_at db r.owner_id)) [
    | inl o ↦ ground (arith, gs h, us r.owner_id, v.owned h r)
    | inr (u, o) ↦ ground (arith, gs h, us r.owner_id, v.owned h r)
  ];
  grouped = λ j u e z. elim (Option-cases (user_at db j)) [
    | inl o ↦ ground (arith, us j)
    | inr (w, o) ↦ ground (arith, us j, gs u.group_id, v.grouped j w)
  ];
  zero_free = ground (arith, gs 0, v.zero_free);
  fresh = λ h l. ground (arith, gs h, v.fresh h);
  next_pos = ground (arith, v.next_pos);
  user_fresh = λ j l. ground (arith, us j, v.user_fresh j);
  distinct = d;
}

abbrev pub put_owner : ℕ → ℕ → Group → Group
put_owner g k r = if r.id == g then record r { owner_id = k } else r

pub group-set_owner :
    (g k h : ℕ) (db : Db)
    → group_at (set_owner g k db) h ≡ Option.map (put_owner g k) (group_at db h)
unfolding set_owner
group-set_owner g k h db =
    get-update group_key h (λ r. r.id == g) (λ r. record r { owner_id = k }) db.groups (λ r. refl)

-- A member may be made the owner, and a group may lose its owner.
pub set_owner-IsValid :
    (g k : ℕ) (db : Db)
    → IsValid db
    → (k ≢ 0 → in_group g (user_at db k) ≡ true)
    → IsValid (set_owner g k db)
unfolding set_owner
set_owner-IsValid g k db v m = record {
  owned = λ h r e z. elim (Option-cases (group_at db h)) [
    | inl o ↦ ground (arith, group-set_owner g k h db)
    | inr (s, o) ↦
        ground (arith, group-set_owner g k h db, v.owned h s, get-key group_key h s db.groups)
  ];
  grouped = λ j u e z. ground (arith, group-set_owner g k u.group_id db, v.grouped j u);
  zero_free = ground (arith, group-set_owner g k 0 db, v.zero_free);
  fresh = λ h l. ground (arith, group-set_owner g k h db, v.fresh h);
  next_pos = v.next_pos;
  user_fresh = v.user_fresh;
  distinct = v.distinct;
}

-- A change of groups that leaves their ids and owners alone.
pub update_groups-IsValid :
    (p : Group → Bool) (f : Group → Group) (db : Db)
    → ((r : Group) → (f r).id ≡ r.id)
    → ((r : Group) → (f r).owner_id ≡ r.owner_id)
    → IsValid db
    → IsValid (record db { groups = update_where p f db.groups })
update_groups-IsValid p f db ids owners v =
    let gs : (h : ℕ)
        → get group_key h (update_where p f db.groups)
          ≡ Option.map (λ r. if p r then f r else r) (group_at db h) =
      λ h. get-update group_key h p f db.groups ids in
    record {
      owned = λ h r e z. elim (Option-cases (group_at db h)) [
        | inl o ↦ ground (arith, gs h)
        | inr (s, o) ↦ ground (arith, gs h, v.owned h s, owners s)
      ];
      grouped = λ j u e z. ground (arith, v.grouped j u, gs u.group_id);
      zero_free = ground (arith, gs 0, v.zero_free);
      fresh = λ h l. ground (arith, gs h, v.fresh h);
      next_pos = v.next_pos;
      user_fresh = v.user_fresh;
      distinct = v.distinct;
    }

-- A group that the sequence has numbered, with no owner yet or with a member for one.
pub new_group-IsValid :
    (r : Group) (db after : Db)
    → IsValid db
    → r.id ≡ db.next_group
    → ((j : ℕ) → user_at after j ≡ user_at db j)
    → ((h : ℕ) → group_at after h ≡ or_row group_key h r (group_at db h))
    → after.next_group ≡ suc db.next_group
    → r.owner_id ≡ 0
    → after.next_user ≡ db.next_user
    → Distinct user_key after.users
    → IsValid after
new_group-IsValid r db after v i us gs n z0 nu d = record {
  owned = λ h s e z. ground (arith, gs h, us s.owner_id, v.owned h s);
  grouped = λ j u e z. ground (arith, us j, gs u.group_id, v.grouped j u);
  zero_free = ground (arith, gs 0, v.zero_free, v.next_pos);
  fresh = λ h l. ground (arith, gs h, v.fresh h);
  next_pos = omega arith;
  user_fresh = λ j l. ground (arith, us j, v.user_fresh j);
  distinct = d;
}

-- A new group with its creator, who was in no group.
pub new_team-IsValid :
    (r : Group) (k : ℕ) (u : User) (db after : Db)
    → IsValid db
    → r.id ≡ db.next_group
    → user_at db k ≡ some u
    → u.group_id ≡ 0
    → ((j : ℕ) → user_at after j ≡ Option.map (put_group k r.id) (user_at db j))
    → ((h : ℕ) → group_at after h ≡ or_row group_key h r (group_at db h))
    → after.next_group ≡ suc db.next_group
    → r.owner_id ≡ k
    → after.next_user ≡ db.next_user
    → Distinct user_key after.users
    → IsValid after
new_team-IsValid r k u db after v i at z0 us gs n o nu d = record {
  owned = λ h s e z. elim (Option-cases (user_at db s.owner_id)) [
    | inl a ↦ ground (arith, gs h, us s.owner_id, v.owned h s)
    | inr (w, a) ↦ ground (
      arith,
      gs h,
      us s.owner_id,
      v.owned h s,
      v.fresh h,
      v.zero_free,
      get-key user_key s.owner_id w db.users,
      get-key user_key k u db.users,
    )
  ];
  grouped = λ j w e z. elim (Option-cases (user_at db j)) [
    | inl a ↦ ground (arith, us j)
    | inr (x, a) ↦ ground (arith, us j, gs w.group_id, v.grouped j x)
  ];
  zero_free = ground (arith, gs 0, v.zero_free, v.next_pos);
  fresh = λ h l. ground (arith, gs h, v.fresh h);
  next_pos = omega arith;
  user_fresh = λ j l. ground (arith, us j, v.user_fresh j);
  distinct = d;
}
