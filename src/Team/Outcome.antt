-- ===== src/Team/Outcome.antt =====
-- What the methods of group.go have done to the database when they return no error, and who may
-- have them done.
use wust_algo_tracker.Prelude.{
  ℕ, ◌≡◌, ◌≢◌, refl, true, ◌&&◌, Option, List, none, some, ◌⊎◌, inl, inr, arith, ◌==◌, Option-cases,
}
use wust_algo_tracker.Table.{find, select}
use wust_algo_tracker.Table.Laws.{get-key, get-delete, find-none-once}
use wust_algo_tracker.User.Db.{
  User, Group, Db, user_key, group_key, user_at, group_at, in_group, rejected, is_pending,
}
use wust_algo_tracker.User.Tx.Yields.{
  Yields, Yields-bind, Yields-found, Yields-reject, Yields-read, Yields-write, Yields-transaction,
  Yields-last, Yields-return,
}
use wust_algo_tracker.Team.Owner.{
  can_manage_team, set_group, reset_members, set_owner, delete_group, set_status, is_invite_of,
}
use wust_algo_tracker.Team.Members.{remove_team_member, transfer_team_owner, disband_team}
use wust_algo_tracker.Team.Admin.{get_with_users}
use wust_algo_tracker.Team.Ensured.{Ensured, ensure-Ensured}
use wust_algo_tracker.Team.Valid.{IsValid, user-set_group, group-set_owner}

-- The owner of a group that is there.
abbrev pub owner_of : Option Group → Option ℕ
owner_of none = none
owner_of (some r) = some r.owner_id

-- The user is in the team and owns it, or the team is there without an owner, and takes its first
-- member for one.
abbrev pub Leads : Db → ℕ → ℕ → Type 0
Leads db user_id team =
    (in_group team (user_at db user_id) ≡ true)
    × ((owner_of (group_at db team) ≡ some 0) ⊎ (owner_of (group_at db team) ≡ some user_id))

-- The database after a member has left a team: removed by `operator_id`.
pub record Removed (operator_id member_id : ℕ) (db after : Db) : Type 0 where
  pub team : ℕ
  pub leads : Leads db operator_id team
  pub was_member : in_group team (user_at db member_id) ≡ true
  pub out : in_group 0 (user_at after member_id) ≡ true
  pub others : (k : ℕ) → k ≢ member_id → user_at after k ≡ user_at db k
  pub no_invites : find (is_invite_of member_id) after.invites ≡ none

Leads-of :
    (user_id team : ℕ) (u : User) (group owned : Group) (db after : Db)
    → user_at db user_id ≡ some u
    → u.group_id ≡ team
    → group_at db team ≡ some group
    → Ensured db team owned after
    → can_manage_team user_id owned.owner_id ≡ true
    → Leads db user_id team
unfolding can_manage_team
Leads-of user_id team u group owned db after a m g e may =
    (ground arith, ground (arith, e.kept group g))

pub user-moved : (k g j : ℕ) (db : Db) → j ≢ k → user_at (set_group k g db) j ≡ user_at db j
user-moved k g j db ne = elim (Option-cases (user_at db j)) [
  | inl e ↦ ground (arith, user-set_group k g j db)
  | inr (u, e) ↦ ground (arith, user-set_group k g j db, get-key user_key j u db.users)
]

pub user-put :
    (k g : ℕ) (u : User) (db : Db)
    → user_at db k ≡ some u
    → in_group g (user_at (set_group k g db) k) ≡ true
user-put k g u db e = ground (arith, user-set_group k g k db, get-key user_key k u db.users)

no_invites_left :
    (k : ℕ) (db : Db)
    → find (is_invite_of k) (set_status (is_invite_of k) rejected db).invites ≡ none
unfolding set_status
no_invites_left k db =
    find-none-once (is_invite_of k) (is_invite_of k) (λ i. record i { status = rejected })
      db.invites (λ i. ground arith)

-- In a valid database, where RemoveTeamMember returns no error the operator leads a team (it owns it,
-- or the team had no owner) of which the member was one; the member is then in no team and has no
-- pending invitation, and no other user's row has changed.
pub remove_team_member-Removed :
    (operator_id member_id : ℕ) (db : Db)
    → IsValid db
    → Yields (λ _. Removed operator_id member_id db) (remove_team_member operator_id member_id db)
unfolding remove_team_member
remove_team_member-Removed operator_id member_id db v =
    let P : Unit {0} → Db → Type 0 = λ _. Removed operator_id member_id db in
    Yields-reject P _ _ _ db λ different. Yields-transaction P _ db (
      Yields-read P _ _ db (
        Yields-found P _ _ _ db λ operator at_operator. Yields-reject P _ _ _ db λ in_team.
          Yields-read P _ _ db (
            Yields-found P _ _ _ db λ group at_group.
              Yields-bind P (Ensured db operator.group_id) _ _ db
                (ensure-Ensured operator.group_id group db v at_group)
                λ owned after e. Yields-reject P _ _ _ after λ may. Yields-read P _ _ after (
                  Yields-found P _ _ _ after λ member at_member.
                    Yields-reject P _ _ _ after λ inside. Yields-reject P _ _ _ after λ not_owner.
                      Yields-write P _ _ after (
                        Yields-last P _ _ (record {
                          team = operator.group_id;
                          leads =
                              Leads-of operator_id operator.group_id operator group owned db after
                                at_operator refl at_group e (ground arith);
                          was_member = ground (arith, e.users member_id);
                          out = user-put member_id 0 member after at_member;
                          others =
                              λ k ne. ground (arith, user-moved member_id 0 k after ne, e.users k);
                          no_invites = no_invites_left member_id (set_group member_id 0 after);
                        }))))))

-- After a handover, the operator's team, which the operator led, belongs to the new owner, who is a
-- member of it; the owners of other teams are the same and nobody has changed team.
pub record Transferred (operator_id new_owner_id : ℕ) (db after : Db) : Type 0 where
  pub team : ℕ
  pub leads : Leads db operator_id team
  pub new_member : in_group team (user_at db new_owner_id) ≡ true
  pub owner : owner_of (group_at after team) ≡ some new_owner_id
  pub others : (h : ℕ) → h ≢ team → group_at after h ≡ group_at db h
  pub users : (k : ℕ) → user_at after k ≡ user_at db k

group-moved : (g k h : ℕ) (db : Db) → h ≢ g → group_at (set_owner g k db) h ≡ group_at db h
group-moved g k h db ne = elim (Option-cases (group_at db h)) [
  | inl e ↦ ground (arith, group-set_owner g k h db)
  | inr (r, e) ↦ ground (arith, group-set_owner g k h db, get-key group_key h r db.groups)
]

owner-put :
    (g k : ℕ) (group : Group) (db : Db)
    → group_at db g ≡ some group
    → owner_of (group_at (set_owner g k db) g) ≡ some k
owner-put g k group db at =
    ground (arith, group-set_owner g k g db, get-key group_key g group db.groups)

-- In a valid database, where TransferTeamOwner returns no error the operator leads a team of which the
-- new owner is a member; the team then has that owner, and the other groups and all users are as
-- they were.
pub transfer_team_owner-Transferred :
    (operator_id new_owner_id : ℕ) (db : Db)
    → IsValid db
    → Yields
        (λ _. Transferred operator_id new_owner_id db)
        (transfer_team_owner operator_id new_owner_id db)
unfolding transfer_team_owner
transfer_team_owner-Transferred operator_id new_owner_id db v =
    let P : Unit {0} → Db → Type 0 = λ _. Transferred operator_id new_owner_id db in
    Yields-reject P _ _ _ db λ different. Yields-transaction P _ db (
      Yields-read P _ _ db (
        Yields-found P _ _ _ db λ operator at_operator. Yields-reject P _ _ _ db λ in_team.
          Yields-read P _ _ db (
            Yields-found P _ _ _ db λ group at_group.
              Yields-bind P (Ensured db operator.group_id) _ _ db
                (ensure-Ensured operator.group_id group db v at_group)
                λ owned after e. Yields-reject P _ _ _ after λ may. Yields-read P _ _ after (
                  Yields-found P _ _ _ after λ new_owner at_new.
                    Yields-reject P _ _ _ after λ inside. Yields-last P _ after (record {
                      team = operator.group_id;
                      leads =
                          Leads-of operator_id operator.group_id operator group owned db after
                            at_operator refl at_group e (ground arith);
                      new_member = ground (arith, e.users new_owner_id);
                      owner = owner-put operator.group_id new_owner_id owned after e.at;
                      others = λ h ne. ground (
                        arith,
                        group-moved operator.group_id new_owner_id h after ne,
                        e.others h ne,
                      );
                      users = λ k. unfold set_owner in e.users k;
                    })))))

-- After a team is disbanded the group is gone, nobody is in it, no invitation to it is pending, and
-- the other groups are as they were.
pub record Disbanded (owner_id : ℕ) (db after : Db) : Type 0 where
  pub team : ℕ
  pub leads : Leads db owner_id team
  pub gone : group_at after team ≡ none
  pub no_member : find (λ u. u.group_id == team) after.users ≡ none
  pub no_pending : find (λ i. i.group_id == team && is_pending i.status) after.invites ≡ none
  pub others : (h : ℕ) → h ≢ team → group_at after h ≡ group_at db h

-- In a valid database, where DisbandTeam returns no error the caller led a team; that team is gone,
-- nobody is in it, no invitation to it is pending, and the other groups are as they were.
pub disband_team-Disbanded :
    (owner_id : ℕ) (db : Db)
    → IsValid db
    → Yields (λ _. Disbanded owner_id db) (disband_team owner_id db)
unfolding disband_team delete_group set_status reset_members
disband_team-Disbanded owner_id db v =
    let P : Unit {0} → Db → Type 0 = λ _. Disbanded owner_id db in
    Yields-transaction P _ db (
      Yields-read P _ _ db (
        Yields-found P _ _ _ db λ owner at_owner. Yields-reject P _ _ _ db λ in_team.
          Yields-read P _ _ db (
            Yields-found P _ _ _ db λ group at_group.
              Yields-bind P (Ensured db owner.group_id) _ _ db
                (ensure-Ensured owner.group_id group db v at_group)
                λ owned after e. Yields-reject P _ _ _ after λ may. Yields-write P _ _ after (
                  Yields-write P _ _ _ (
                    Yields-last P _ _ (record {
                      team = owner.group_id;
                      leads =
                          Leads-of owner_id owner.group_id owner group owned db after at_owner refl
                            at_group e (ground arith);
                      gone =
                          ground (
                            arith,
                            get-delete group_key owner.group_id owner.group_id after.groups,
                          );
                      no_member =
                          find-none-once _ _ (λ u. record u { group_id = 0 }) after.users
                            (λ u. ground arith);
                      no_pending =
                          find-none-once _ _ (λ i. record i { status = rejected }) after.invites
                            (λ i. ground arith);
                      others = λ h ne. ground (
                        arith,
                        get-delete group_key h owner.group_id after.groups,
                        e.others h ne,
                      );
                    }))))))

-- What GetWithUsers returns and leaves: the group as it then stands, the members as they were read, and
-- nothing changed but an owner for a group that had none.
abbrev pub Read : Db → ℕ → Group × List User → Db → Type 0
Read db g r after = Ensured db g r.0 after × (r.1 ≡ select (λ u. u.group_id == g) db.users)

-- In a valid database, where GetWithUsers returns no error it returns the group as it then stands, and
-- its members; the database is still valid, so that an owner of the group is one of them. The users,
-- the other groups, and an owner that the group had are unchanged.
pub get_with_users-Read : (g : ℕ) (db : Db) → IsValid db → Yields (Read db g) (get_with_users g db)
unfolding get_with_users
get_with_users-Read g db v = Yields-transaction (Read db g) _ db (
    Yields-read (Read db g) _ _ db (
      Yields-read (Read db g) _ _ db (
        Yields-found (Read db g) _ _ _ db λ group at_group.
          Yields-bind (Read db g) (Ensured db g) _ _ db (ensure-Ensured g group db v at_group)
            λ owned after e. Yields-return (Read db g) _ _ (e, refl))))
