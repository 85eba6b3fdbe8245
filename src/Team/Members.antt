-- ===== src/Team/Members.antt =====
-- The methods of group.go that make, edit, hand over, leave and disband a team.
use wust_algo_tracker.Prelude.{ℕ, suc, String, not, ◌&&◌, some, [], ◌∷◌, ◌++◌, ◌==◌}
use wust_algo_tracker.Table.{update_where}
use wust_algo_tracker.User.Db.{Group, rejected, is_pending, user_at, group_at}
use wust_algo_tracker.User.Tx.{
  Tx, return, found, read, write, transaction, reject_if, ◌>>=◌, ◌>>◌, user_missing, team_missing,
  joined_already, not_own_team, only_owner_edits, no_team_yet, self_remove, operator_missing,
  only_owner_edits_members, member_missing, not_in_your_team, owner_irremovable, self_transfer,
  only_owner_transfers, new_owner_missing, new_owner_outside, no_current_team, owner_cannot_leave,
  only_owner_disbands,
}
use wust_algo_tracker.Team.Owner.{
  can_manage_team, set_group, reset_members, set_owner, delete_group, set_status,
  ensure_group_owner, is_invite_of,
}

-- CreateTeamForUser
unfoldable pub create_team_for_user : ℕ → String → String → String → Tx Group
unfolding set_group
create_team_for_user user_id name avatar describe = transaction (do
  user ← found (← read (λ db. user_at db user_id)) user_missing
  reject_if (not (user.group_id == 0)) joined_already
  id ← read (λ db. db.next_group)
  let created : Group = record {
    id = id;
    name = some name;
    describe = describe;
    avatar = avatar;
    owner_id = user_id;
  }
  write (λ db. record db { groups = db.groups ++ created ∷ []; next_group = suc id })
  write (set_group user_id id)
  return created)

-- UpdateTeam
unfoldable pub update_team : ℕ → ℕ → String → String → String → Tx (Unit {0})
unfolding ensure_group_owner can_manage_team
update_team user_id g name avatar describe = transaction (do
  group ← found (← read (λ db. group_at db g)) team_missing
  user ← found (← read (λ db. user_at db user_id)) user_missing
  reject_if (not (user.group_id == g)) not_own_team
  group ← ensure_group_owner group
  reject_if (not (can_manage_team user_id group.owner_id)) only_owner_edits
  write (λ db. record db {
    groups =
        update_where (λ r. r.id == g)
          (λ r. record r { name = some name; avatar = avatar; describe = describe }) db.groups;
  }))

-- RemoveTeamMember
unfoldable pub remove_team_member : ℕ → ℕ → Tx (Unit {0})
unfolding ensure_group_owner can_manage_team set_group set_status
remove_team_member operator_id member_id = do
  reject_if (operator_id == member_id) self_remove
  transaction (do
    operator ← found (← read (λ db. user_at db operator_id)) operator_missing
    reject_if (operator.group_id == 0) no_team_yet
    group ← found (← read (λ db. group_at db operator.group_id)) team_missing
    group ← ensure_group_owner group
    reject_if (not (can_manage_team operator_id group.owner_id)) only_owner_edits_members
    member ← found (← read (λ db. user_at db member_id)) member_missing
    reject_if (not (member.group_id == operator.group_id)) not_in_your_team
    reject_if (member.id == group.owner_id) owner_irremovable
    write (set_group member_id 0)
    write (set_status (is_invite_of member_id) rejected))

-- TransferTeamOwner
unfoldable pub transfer_team_owner : ℕ → ℕ → Tx (Unit {0})
unfolding ensure_group_owner can_manage_team set_owner
transfer_team_owner operator_id new_owner_id = do
  reject_if (operator_id == new_owner_id) self_transfer
  transaction (do
    operator ← found (← read (λ db. user_at db operator_id)) operator_missing
    reject_if (operator.group_id == 0) no_team_yet
    group ← found (← read (λ db. group_at db operator.group_id)) team_missing
    group ← ensure_group_owner group
    reject_if (not (can_manage_team operator_id group.owner_id)) only_owner_transfers
    new_owner ← found (← read (λ db. user_at db new_owner_id)) new_owner_missing
    reject_if (not (new_owner.group_id == operator.group_id)) new_owner_outside
    write (set_owner operator.group_id new_owner_id))

-- LeaveTeam
unfoldable pub leave_team : ℕ → Tx (Unit {0})
unfolding ensure_group_owner set_group set_status
leave_team user_id = transaction (do
  user ← found (← read (λ db. user_at db user_id)) user_missing
  reject_if (user.group_id == 0) no_current_team
  group ← found (← read (λ db. group_at db user.group_id)) team_missing
  group ← ensure_group_owner group
  reject_if (group.owner_id == user_id) owner_cannot_leave
  write (set_group user_id 0)
  write (set_status (is_invite_of user_id) rejected))

-- DisbandTeam
unfoldable pub disband_team : ℕ → Tx (Unit {0})
unfolding ensure_group_owner can_manage_team reset_members set_status delete_group
disband_team owner_id = transaction (do
  owner ← found (← read (λ db. user_at db owner_id)) operator_missing
  reject_if (owner.group_id == 0) no_current_team
  group ← found (← read (λ db. group_at db owner.group_id)) team_missing
  group ← ensure_group_owner group
  reject_if (not (can_manage_team owner_id group.owner_id)) only_owner_disbands
  write (reset_members owner.group_id)
  write (set_status (λ i. i.group_id == owner.group_id && is_pending i.status) rejected)
  write (delete_group owner.group_id))
