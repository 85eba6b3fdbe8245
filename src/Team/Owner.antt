-- ===== src/Team/Owner.antt =====
-- The writes of group.go, who may manage a team (team_rules.go), and ensureGroupOwner.
use wust_algo_tracker.Prelude.{
  ℕ, Bool, not, ◌&&◌, ◌||◌, Option, none, some, ◌==◌, ltb, if◌then◌else◌,
}
use wust_algo_tracker.Table.{find, update_where, delete_where}
use wust_algo_tracker.User.Db.{User, Group, GroupInvite, InviteStatus, is_pending, Db}
use wust_algo_tracker.User.Tx.{Tx, return, write, ◌>>◌}

-- team_rules.go
unfoldable pub can_manage_team : ℕ → ℕ → Bool
can_manage_team operator_id owner_id =
    ltb 0 operator_id && (ltb 0 owner_id && operator_id == owner_id)

-- The writes, by the statement that makes them.
unfoldable pub set_group : ℕ → ℕ → Db → Db
set_group k g db = record db {
  users = update_where (λ u. u.id == k) (λ u. record u { group_id = g }) db.users;
}

unfoldable pub reset_members : ℕ → Db → Db
reset_members g db = record db {
  users = update_where (λ u. u.group_id == g) (λ u. record u { group_id = 0 }) db.users;
}

unfoldable pub set_owner : ℕ → ℕ → Db → Db
set_owner g k db = record db {
  groups = update_where (λ r. r.id == g) (λ r. record r { owner_id = k }) db.groups;
}

unfoldable pub delete_group : ℕ → Db → Db
delete_group g db = record db { groups = delete_where (λ r. r.id == g) db.groups }

unfoldable pub set_status : (GroupInvite → Bool) → InviteStatus → Db → Db
set_status p s db = record db { invites = update_where p (λ i. record i { status = s }) db.invites }

-- The end of ensureGroupOwner: the member that was found, if any, becomes the owner.
unfoldable pub pick_owner : Group → Option User → Tx Group
unfolding set_owner
pick_owner group none = return group
pick_owner group (some u) =
    write (set_owner group.id u.id) >> return (record group { owner_id = u.id })

-- ensureGroupOwner: a group without an owner gets its member with the smallest id. It returns the
-- group as the caller's variable then holds it.
unfoldable pub ensure_group_owner : Group → Tx Group
unfolding pick_owner find
ensure_group_owner group db =
    if group.id == 0 || not (group.owner_id == 0)
    then return group db
    else pick_owner group (find (λ u. u.group_id == group.id) db.users) db

-- The pending invitations of a user.
abbrev pub is_invite_of : ℕ → GroupInvite → Bool
is_invite_of invitee_id i = i.invitee_id == invitee_id && is_pending i.status
