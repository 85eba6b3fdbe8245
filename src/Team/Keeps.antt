-- ===== src/Team/Keeps.antt =====
-- Every method of the data layer of teams keeps the invariant.
pub mod Invites
use mathlib.Core.Option
use mathlib.Core.Path.{subst, sym, ap, ◌∙◌}
use wust_algo_tracker.Prelude.{
  ℕ, suc, String, ◌≡◌, ◌≢◌, refl, Bool, true, false, not, ◌&&◌, Option, none, some, ◌⊎◌, inl, inr,
  arith, ◌==◌, Option-cases, Bool-cases, ◌||◌, List, [], ◌∷◌, ◌++◌, if◌then◌else◌,
}
use wust_algo_tracker.Table.{find, get}
use wust_algo_tracker.Table.Laws.{get-key, get-insert, get-update, get-delete, find_sound}
use wust_algo_tracker.Table.Distinct.{Distinct, get-find, update-Distinct}
use wust_algo_tracker.User.Db.{
  User, Group, GroupInvite, InviteStatus, Db, user_key, group_key, user_at, group_at, in_group,
  pending, rejected, accepted, is_pending,
}
use wust_algo_tracker.User.Tx.{Result, ok, err, Tx, return, write, transaction, ◌>>=◌, ◌>>◌}
use wust_algo_tracker.User.Tx.Yields.{
  Yields, Yields-return, Yields-bind, Yields-found, Yields-reject, Yields-read, Yields-write,
  Yields-transaction, Yields-last, Yields-run,
}
use wust_algo_tracker.Team.Owner.{
  can_manage_team, set_group, reset_members, set_owner, delete_group, set_status, pick_owner,
  ensure_group_owner, is_invite_of,
}
use wust_algo_tracker.Team.Admin.{create, delete, get_with_users}
use wust_algo_tracker.Team.Members.{
  create_team_for_user, update_team, remove_team_member, transfer_team_owner, leave_team,
  disband_team,
}
use wust_algo_tracker.Team.Invites.{
  is_invite_to, reuse_invite, respond_with, invite_user, accept_invite, respond_invite,
}
use wust_algo_tracker.Team.Ensured.{Ensured, ensure-Ensured}
use wust_algo_tracker.Team.Valid.{
  IsValid, OwnsNothing, set_group-IsValid, set_owner-IsValid, disbanded-IsValid, new_group-IsValid,
  new_team-IsValid, update_groups-IsValid, group-set_owner, leave_group, put_group,
  user-reset_members, user-set_group,
}

pub set_status-IsValid :
    (p : GroupInvite → Bool) (s : InviteStatus) (db : Db) → IsValid db → IsValid (set_status p s db)
unfolding set_status
set_status-IsValid p s db v = record {
  owned = v.owned;
  grouped = v.grouped;
  zero_free = v.zero_free;
  fresh = v.fresh;
  next_pos = v.next_pos;
  user_fresh = v.user_fresh;
  distinct = v.distinct;
}

abbrev pub Keeps : {A : Type 0} → A → Db → Type 0
Keeps _ after = IsValid after

-- A member of a group who is not its owner is the owner of nothing.
member-OwnsNothing :
    (k g : ℕ) (u : User) (group : Group) (db : Db)
    → IsValid db
    → user_at db k ≡ some u
    → u.group_id ≡ g
    → group_at db g ≡ some group
    → group.owner_id ≢ k
    → OwnsNothing k db
member-OwnsNothing k g u group db v a m at ne = λ h r e z same. ground (arith, v.owned h r)

pub remove_team_member-IsValid :
    (operator_id member_id : ℕ) (db : Db)
    → IsValid db
    → Yields Keeps (remove_team_member operator_id member_id db)
unfolding remove_team_member
remove_team_member-IsValid operator_id member_id db v = Yields-reject Keeps _ _ _ db λ different.
    Yields-transaction Keeps _ db (
      Yields-read Keeps _ _ db (
        Yields-found Keeps _ _ _ db λ operator at_operator. Yields-reject Keeps _ _ _ db λ in_team.
          Yields-read Keeps _ _ db (
            Yields-found Keeps _ _ _ db λ group at_group.
              Yields-bind Keeps (Ensured db operator.group_id) _ _ db
                (ensure-Ensured operator.group_id group db v at_group)
                λ owned after e. Yields-reject Keeps _ _ _ after λ may.
                  Yields-read Keeps _ _ after (
                    Yields-found Keeps _ _ _ after λ member at_member.
                      Yields-reject Keeps _ _ _ after λ inside.
                        Yields-reject Keeps _ _ _ after λ not_owner. Yields-write Keeps _ _ after (
                          Yields-last Keeps _ _ (
                            set_status-IsValid (is_invite_of member_id) rejected
                              (set_group member_id 0 after)
                              (set_group-IsValid member_id 0 after e.valid
                                (member-OwnsNothing member_id operator.group_id member owned after
                                  e.valid at_member (ground arith) e.at
                                  (ground (
                                    arith,
                                    get-key user_key member_id member after.users at_member,
                                  )))
                                (inl refl))))))))

pub transfer_team_owner-IsValid :
    (operator_id new_owner_id : ℕ) (db : Db)
    → IsValid db
    → Yields Keeps (transfer_team_owner operator_id new_owner_id db)
unfolding transfer_team_owner
transfer_team_owner-IsValid operator_id new_owner_id db v =
    Yields-reject Keeps _ _ _ db λ different. Yields-transaction Keeps _ db (
      Yields-read Keeps _ _ db (
        Yields-found Keeps _ _ _ db λ operator at_operator. Yields-reject Keeps _ _ _ db λ in_team.
          Yields-read Keeps _ _ db (
            Yields-found Keeps _ _ _ db λ group at_group.
              Yields-bind Keeps (Ensured db operator.group_id) _ _ db
                (ensure-Ensured operator.group_id group db v at_group)
                λ owned after e. Yields-reject Keeps _ _ _ after λ may.
                  Yields-read Keeps _ _ after (
                    Yields-found Keeps _ _ _ after λ new_owner at_new.
                      Yields-reject Keeps _ _ _ after λ inside. Yields-last Keeps _ after (
                        set_owner-IsValid operator.group_id new_owner_id after e.valid
                          (λ nz. ground arith))))))

pub leave_team-IsValid : (user_id : ℕ) (db : Db) → IsValid db → Yields Keeps (leave_team user_id db)
unfolding leave_team
leave_team-IsValid user_id db v = Yields-transaction Keeps _ db (
    Yields-read Keeps _ _ db (
      Yields-found Keeps _ _ _ db λ user at_user. Yields-reject Keeps _ _ _ db λ in_team.
        Yields-read Keeps _ _ db (
          Yields-found Keeps _ _ _ db λ group at_group.
            Yields-bind Keeps (Ensured db user.group_id) _ _ db
              (ensure-Ensured user.group_id group db v at_group)
              λ owned after e. Yields-reject Keeps _ _ _ after λ not_owner.
                Yields-write Keeps _ _ after (
                  Yields-last Keeps _ _ (
                    set_status-IsValid (is_invite_of user_id) rejected (set_group user_id 0 after) (
                      set_group-IsValid user_id 0 after e.valid
                        (member-OwnsNothing user_id user.group_id user owned after e.valid
                          (ground (arith, e.users user_id)) refl e.at (ground arith))
                        (inl refl)))))))

-- The three writes of DisbandTeam, and the two of Delete, leave the same users and groups.
drop_group-IsValid :
    (g : ℕ) (db after : Db)
    → IsValid db
    → after.users ≡ (reset_members g db).users
    → after.groups ≡ (delete_group g db).groups
    → after.next_group ≡ db.next_group
    → after.next_user ≡ db.next_user
    → IsValid after
unfolding reset_members delete_group
drop_group-IsValid g db after v us gs n nu =
    disbanded-IsValid g db after v (λ j. ap (get user_key j) us ∙ user-reset_members g j db)
      (λ h. ap (get group_key h) gs ∙ get-delete group_key h g db.groups) n nu
      (subst (Distinct user_key) (sym us) (
        update-Distinct user_key (λ u. u.group_id == g) (λ u. record u { group_id = 0 }) db.users
          (λ u. refl) v.distinct))

pub disband_team-IsValid :
    (owner_id : ℕ) (db : Db) → IsValid db → Yields Keeps (disband_team owner_id db)
unfolding disband_team
disband_team-IsValid owner_id db v = Yields-transaction Keeps _ db (
    Yields-read Keeps _ _ db (
      Yields-found Keeps _ _ _ db λ owner at_owner. Yields-reject Keeps _ _ _ db λ in_team.
        Yields-read Keeps _ _ db (
          Yields-found Keeps _ _ _ db λ group at_group.
            Yields-bind Keeps (Ensured db owner.group_id) _ _ db
              (ensure-Ensured owner.group_id group db v at_group)
              λ owned after e. Yields-reject Keeps _ _ _ after λ may. Yields-write Keeps _ _ after (
                Yields-write Keeps _ _ _ (
                  Yields-last Keeps _ _
                    (drop_group-IsValid owner.group_id after _ e.valid refl refl refl refl))))))

pub delete-IsValid : (g : ℕ) (db : Db) → IsValid db → Yields Keeps (delete g db)
unfolding delete
delete-IsValid g db v = Yields-read Keeps _ _ db (
    Yields-write Keeps _ _ db (
      Yields-run Keeps _ _ _ (
        Yields-found Keeps _ _ _ _ λ group at_group.
          Yields-last Keeps _ _ (drop_group-IsValid g db _ v refl refl refl refl))))

pub create-IsValid :
    (name describe : String) (db : Db) → IsValid db → Yields Keeps (create name describe db)
unfolding create
create-IsValid name describe db v = Yields-read Keeps _ _ db (
    Yields-write Keeps _ _ db (
      Yields-return Keeps _ _ (
        new_group-IsValid _ db _ v refl (λ j. refl) (λ h. get-insert group_key h _ db.groups) refl
          refl refl v.distinct)))

pub create_team_for_user-IsValid :
    (user_id : ℕ) (name avatar describe : String) (db : Db)
    → IsValid db
    → Yields Keeps (create_team_for_user user_id name avatar describe db)
unfolding create_team_for_user
create_team_for_user-IsValid user_id name avatar describe db v = Yields-transaction Keeps _ db (
    Yields-read Keeps _ _ db (
      Yields-found Keeps _ _ _ db λ user at_user. Yields-reject Keeps _ _ _ db λ free.
        Yields-read Keeps _ _ db (
          Yields-write Keeps _ _ db (
            Yields-write Keeps _ _ _ (
              Yields-return Keeps _ _ (
                new_team-IsValid _ user_id user db _ v refl at_user (ground arith)
                  (λ j. user-set_group user_id db.next_group j db)
                  (λ h. get-insert group_key h _ db.groups) refl refl refl
                  (update-Distinct user_key (λ u. u.id == user_id)
                    (λ u. record u { group_id = db.next_group }) db.users (λ u. refl)
                    v.distinct)))))))

pub update_team-IsValid :
    (user_id g : ℕ) (name avatar describe : String) (db : Db)
    → IsValid db
    → Yields Keeps (update_team user_id g name avatar describe db)
unfolding update_team
update_team-IsValid user_id g name avatar describe db v = Yields-transaction Keeps _ db (
    Yields-read Keeps _ _ db (
      Yields-found Keeps _ _ _ db λ group at_group. Yields-read Keeps _ _ db (
        Yields-found Keeps _ _ _ db λ user at_user. Yields-reject Keeps _ _ _ db λ member.
          Yields-bind Keeps (Ensured db g) _ _ db (ensure-Ensured g group db v at_group)
            λ owned after e. Yields-reject Keeps _ _ _ after λ may.
              Yields-last Keeps _ _
                (update_groups-IsValid _ _ after (λ r. refl) (λ r. refl) e.valid))))

pub get_with_users-IsValid : (g : ℕ) (db : Db) → IsValid db → Yields Keeps (get_with_users g db)
unfolding get_with_users
get_with_users-IsValid g db v = Yields-transaction Keeps _ db (
    Yields-read Keeps _ _ db (
      Yields-read Keeps _ _ db (
        Yields-found Keeps _ _ _ db λ group at_group.
          Yields-bind Keeps (Ensured db g) _ _ db (ensure-Ensured g group db v at_group)
            λ owned after e. Yields-return Keeps _ _ e.valid)))
