-- ===== src/Team/Preserves.antt =====
-- Every method of GroupDal, whether it returns an error or not, keeps the invariant.
use wust_algo_tracker.Prelude.{ℕ, String, ◌≡◌, refl, Bool, true, false, arith}
use wust_algo_tracker.Table.{update_where}
use wust_algo_tracker.Table.Laws.{delete_absent}
use wust_algo_tracker.User.Db.{Group, Db, group_key}
use wust_algo_tracker.User.Tx.{
  Error, Tx, read, write, found, return, transaction, reject_if, ◌>>=◌, ◌>>◌,
}
use wust_algo_tracker.User.Tx.Yields.{Unchanged, transaction-Unchanged}
use wust_algo_tracker.User.Tx.Preserves.{
  Preserves, Preserves-of_Yields, Preserves-write, Preserves-then, Preserves-bind, Preserves-read,
  preserve_rules,
}
use wust_algo_tracker.Team.Owner.{delete_group}
use wust_algo_tracker.Team.Admin.{create, delete, update, get_with_users}
use wust_algo_tracker.Team.Members.{
  create_team_for_user, update_team, remove_team_member, transfer_team_owner, leave_team,
  disband_team,
}
use wust_algo_tracker.Team.Invites.{invite_user, respond_invite}
use wust_algo_tracker.Team.Valid.{IsValid, update_groups-IsValid}
use wust_algo_tracker.Team.Keeps.{
  create_team_for_user-IsValid, update_team-IsValid, remove_team_member-IsValid,
  transfer_team_owner-IsValid, leave_team-IsValid, disband_team-IsValid, create-IsValid,
  get_with_users-IsValid, delete-IsValid,
}
use wust_algo_tracker.Team.Keeps.Invites.{invite_user-IsValid, respond_invite-IsValid}

-- A test before a transaction.
guarded-Unchanged :
    {A : Type 0} (b : Bool) (e : Error) (body : Tx A) (db : Db)
    → Unchanged db ((reject_if b e >> transaction body) db)
unfolding reject_if ◌>>◌
guarded-Unchanged true e body db = refl
guarded-Unchanged false e body db = transaction-Unchanged body db

pub create-Preserves : (name describe : String) → Preserves IsValid (create name describe)
create-Preserves name describe =
    Preserves-of_Yields IsValid _ (λ db. unfold create read write return ◌>>=◌ ◌>>◌ in tt)
      (create-IsValid name describe)

-- Delete of an absent group has deleted nothing when it returns its error.
delete-Unchanged : (g : ℕ) (db : Db) → Unchanged db (delete g db)
unfolding delete delete_group read write found ◌>>=◌ ◌>>◌
delete-Unchanged g db = ground (arith, delete_absent group_key g db.groups)

pub delete-Preserves : (g : ℕ) → Preserves IsValid (delete g)
delete-Preserves g = Preserves-of_Yields IsValid _ (delete-Unchanged g) (delete-IsValid g)

-- A write to a column that the invariant does not read.
write_column-Preserves :
    (p : Group → Bool) (f : Group → Group)
    → ((r : Group) → (f r).id ≡ r.id)
    → ((r : Group) → (f r).owner_id ≡ r.owner_id)
    → Preserves IsValid (write (λ db. record db { groups = update_where p f db.groups }))
write_column-Preserves p f same_id same_owner =
    Preserves-write IsValid _ (λ db v. update_groups-IsValid p f db same_id same_owner v)

pub update-Preserves : (g : ℕ) (name describe : String) → Preserves IsValid (update g name describe)
unfolding update
update-Preserves g name describe = Preserves-bind IsValid _ _ (Preserves-read IsValid _) λ group.
    Preserves-then IsValid _ _ (write_column-Preserves _ _ (λ r. refl) (λ r. refl))
      (search preserve_rules)

pub create_team_for_user-Preserves :
    (user_id : ℕ) (name avatar describe : String)
    → Preserves IsValid (create_team_for_user user_id name avatar describe)
create_team_for_user-Preserves user_id name avatar describe =
    Preserves-of_Yields IsValid _ (λ db. unfold create_team_for_user in transaction-Unchanged _ db)
      (create_team_for_user-IsValid user_id name avatar describe)

pub update_team-Preserves :
    (user_id g : ℕ) (name avatar describe : String)
    → Preserves IsValid (update_team user_id g name avatar describe)
update_team-Preserves user_id g name avatar describe =
    Preserves-of_Yields IsValid _ (λ db. unfold update_team in transaction-Unchanged _ db)
      (update_team-IsValid user_id g name avatar describe)

pub leave_team-Preserves : (user_id : ℕ) → Preserves IsValid (leave_team user_id)
leave_team-Preserves user_id =
    Preserves-of_Yields IsValid _ (λ db. unfold leave_team in transaction-Unchanged _ db)
      (leave_team-IsValid user_id)

pub disband_team-Preserves : (owner_id : ℕ) → Preserves IsValid (disband_team owner_id)
disband_team-Preserves owner_id =
    Preserves-of_Yields IsValid _ (λ db. unfold disband_team in transaction-Unchanged _ db)
      (disband_team-IsValid owner_id)

pub respond_invite-Preserves :
    (user_id invite_id : ℕ) (accept : Bool)
    → Preserves IsValid (respond_invite user_id invite_id accept)
respond_invite-Preserves user_id invite_id accept =
    Preserves-of_Yields IsValid _ (λ db. unfold respond_invite in transaction-Unchanged _ db)
      (respond_invite-IsValid user_id invite_id accept)

pub remove_team_member-Preserves :
    (operator_id member_id : ℕ) → Preserves IsValid (remove_team_member operator_id member_id)
remove_team_member-Preserves operator_id member_id =
    Preserves-of_Yields IsValid _ (λ db. unfold remove_team_member in guarded-Unchanged _ _ _ db)
      (remove_team_member-IsValid operator_id member_id)

pub transfer_team_owner-Preserves :
    (operator_id new_owner_id : ℕ)
    → Preserves IsValid (transfer_team_owner operator_id new_owner_id)
transfer_team_owner-Preserves operator_id new_owner_id =
    Preserves-of_Yields IsValid _ (λ db. unfold transfer_team_owner in guarded-Unchanged _ _ _ db)
      (transfer_team_owner-IsValid operator_id new_owner_id)

pub invite_user-Preserves :
    (inviter_id invitee_id : ℕ) → Preserves IsValid (invite_user inviter_id invitee_id)
invite_user-Preserves inviter_id invitee_id =
    Preserves-of_Yields IsValid _ (λ db. unfold invite_user in guarded-Unchanged _ _ _ db)
      (invite_user-IsValid inviter_id invitee_id)

pub get_with_users-Preserves : (g : ℕ) → Preserves IsValid (get_with_users g)
get_with_users-Preserves g =
    Preserves-of_Yields IsValid _ (λ db. unfold get_with_users in transaction-Unchanged _ db)
      (get_with_users-IsValid g)

pub ruleset team_calls = (
  create-Preserves, delete-Preserves, update-Preserves, create_team_for_user-Preserves,
  update_team-Preserves, remove_team_member-Preserves, transfer_team_owner-Preserves,
  leave_team-Preserves, disband_team-Preserves, get_with_users-Preserves, invite_user-Preserves,
  respond_invite-Preserves,
)
