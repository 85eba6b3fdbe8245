-- ===== src/Account/Keeps.antt =====
-- Account changes keep the invariant of users and groups; MoveGroup alone does not.
use wust_algo_tracker.Prelude.{
  ℕ, ◌≡◌, ◌≢◌, refl, Bool, true, not, ◌&&◌, Option, none, some, arith, ◌==◌, Option-cases, inl, inr,
  if◌then◌else◌,
}
use wust_algo_tracker.Table.{find}
use wust_algo_tracker.Table.Laws.{get-key, get-update, get-delete, find_sound, find-none}
use wust_algo_tracker.Table.Distinct.{Distinct, get-find, update-Distinct, delete-Distinct}
use wust_algo_tracker.User.Db.{User, Group, Db, user_key, group_key, user_at, group_at, in_group}
use wust_algo_tracker.User.Tx.Yields.{
  Yields, Yields-return, Yields-bind, Yields-found, Yields-read, Yields-write, Yields-transaction,
  Yields-last, Yields-run,
}
use wust_algo_tracker.Team.Owner.{set_owner}
use wust_algo_tracker.Team.Valid.{IsValid, OwnsNothing, set_owner-IsValid, group-set_owner}
use wust_algo_tracker.Account.Dal.{update_user, hand_over, own_group, owner_id_of, delete_user}

abbrev Keeps : {A : Type 0} → A → Db → Type 0
Keeps _ after = IsValid after

-- A change of a user that leaves its id and its group alone.
pub update_user-IsValid :
    (k : ℕ) (f : User → User) (db : Db)
    → ((u : User) → (f u).id ≡ u.id)
    → ((u : User) → (f u).group_id ≡ u.group_id)
    → IsValid db
    → IsValid (update_user k f db)
unfolding update_user
update_user-IsValid k f db ids groups v = record {
  owned = λ g r e z. elim (Option-cases (user_at db r.owner_id)) [
    | inl o ↦ ground (arith, v.owned g r)
    | inr (u, o) ↦ ground (
      arith,
      v.owned g r,
      get-update user_key r.owner_id (λ w. w.id == k) f db.users ids,
      groups u,
    )
  ];
  grouped = λ j u e z. elim (Option-cases (user_at db j)) [
    | inl o ↦ ground (arith, get-update user_key j (λ w. w.id == k) f db.users ids)
    | inr (w, o) ↦
        ground
          (arith, v.grouped j w, get-update user_key j (λ w. w.id == k) f db.users ids, groups w)
  ];
  zero_free = v.zero_free;
  fresh = v.fresh;
  next_pos = v.next_pos;
  user_fresh =
      λ j l. ground (arith, v.user_fresh j, get-update user_key j (λ w. w.id == k) f db.users ids);
  distinct = update-Distinct user_key (λ w. w.id == k) f db.users ids v.distinct;
}

-- Once the user owns nothing, the account may go.
drop_user-IsValid :
    (k : ℕ) (db after : Db)
    → IsValid db
    → OwnsNothing k db
    → ((j : ℕ) → user_at after j ≡ (if j == k then none else user_at db j))
    → after.groups ≡ db.groups
    → after.next_group ≡ db.next_group
    → after.next_user ≡ db.next_user
    → Distinct user_key after.users
    → IsValid after
drop_user-IsValid k db after v o us gs n nu d = record {
  owned = λ g r e z. ground (arith, v.owned g r, o g r, us r.owner_id);
  grouped = λ j u e z. ground (arith, v.grouped j u, us j);
  zero_free = ground (arith, v.zero_free);
  fresh = λ g l. ground (arith, v.fresh g);
  next_pos = ground (arith, v.next_pos);
  user_fresh = λ j l. ground (arith, us j, v.user_fresh j);
  distinct = d;
}

-- After the hand-over the user owns nothing.
pub record HandedOver (user_id : ℕ) (before after : Db) : Type 0 where
  pub valid : IsValid after
  pub owns_nothing : OwnsNothing user_id after

-- The member that DeleteUser picks.
abbrev other_member : ℕ → ℕ → User → Bool
other_member g user_id u = u.group_id == g && not (u.id == user_id)

replacement-fits :
    (g user_id : ℕ) (o : Option User) (db : Db)
    → IsValid db
    → find (other_member g user_id) db.users ≡ o
    → owner_id_of o ≢ 0
    → (in_group g (user_at db (owner_id_of o)) ≡ true) × (owner_id_of o ≢ user_id)
replacement-fits g user_id none db v e z = absurd (z refl)
replacement-fits g user_id (some u) db v e z =
    let at : user_at db u.id ≡ some u =
      get-find user_key (other_member g user_id) u db.users v.distinct e in
    let p : other_member g user_id u ≡ true = find_sound (other_member g user_id) u db.users e in
    (ground arith, ground arith)

own_group-none :
    (user_id : ℕ) (user : User) (db : Db)
    → IsValid db
    → user_at db user_id ≡ some user
    → own_group user_id user.group_id db ≡ none
    → OwnsNothing user_id db
own_group-none user_id user db v a e = λ g r at nz same. ground (
  arith,
  v.owned g r at nz,
  v.zero_free,
  get-key group_key g r db.groups at,
  find-none group_key
      (λ s. not (user.group_id == 0) && (s.id == user.group_id && s.owner_id == user_id)) g r
      db.groups e at,
)

-- After another owner has been written, no group is the user's.
set_owner-OwnsNothing :
    (user_id k : ℕ) (user : User) (db : Db)
    → IsValid db
    → user_at db user_id ≡ some user
    → (k ≢ 0 → k ≢ user_id)
    → OwnsNothing user_id (set_owner user.group_id k db)
set_owner-OwnsNothing user_id k user db v a ne = λ g r at nz same.
    elim (Option-cases (group_at db g)) [
      | inl o ↦ ground (arith, group-set_owner user.group_id k g db)
      | inr (s, o) ↦ ground (
        arith,
        group-set_owner user.group_id k g db,
        v.owned g s,
        get-key group_key g s db.groups,
      )
    ]

hand_over-HandedOver :
    (user_id : ℕ) (user : User) (o : Option Group) (db : Db)
    → IsValid db
    → user_at db user_id ≡ some user
    → own_group user_id user.group_id db ≡ o
    → Yields (λ _ after. HandedOver user_id db after) (hand_over user_id user.group_id o db)
unfolding hand_over
hand_over-HandedOver user_id user none db v a e =
    Yields-return (λ _ after. HandedOver user_id db after) tt db
      (record { valid = v; owns_nothing = own_group-none user_id user db v a e })
hand_over-HandedOver user_id user (some group) db v a e =
    let o = find (other_member user.group_id user_id) db.users in
    let fits = replacement-fits user.group_id user_id o db v refl in
    Yields-read (λ _ after. HandedOver user_id db after) _ _ db
      (Yields-last (λ _ after. HandedOver user_id db after) _ db
        (record {
          valid = set_owner-IsValid user.group_id (owner_id_of o) db v (λ nz. (fits nz).0);
          owns_nothing =
              set_owner-OwnsNothing user_id (owner_id_of o) user db v a (λ nz. (fits nz).1);
        }))

pub delete_user-IsValid :
    (user_id : ℕ) (db : Db) → IsValid db → Yields Keeps (delete_user user_id db)
unfolding delete_user
delete_user-IsValid user_id db v = Yields-transaction Keeps _ db (
    Yields-read Keeps _ _ db (
      Yields-found Keeps _ _ _ db λ user at_user. Yields-read Keeps _ _ db (
        Yields-run Keeps _ _ db (
          Yields-bind Keeps (λ _ after. HandedOver user_id db after) _ _ db
            (hand_over-HandedOver user_id user _ db v at_user refl)
            λ _ after h. Yields-write Keeps _ _ after (
              Yields-last Keeps _ _ (
                drop_user-IsValid user_id after _ h.valid h.owns_nothing
                  (λ j. get-delete user_key j user_id after.users) refl refl refl
                  (delete-Distinct user_key (λ u. u.id == user_id) after.users
                    h.valid.distinct)))))))
