-- ===== src/Account/Dal.antt =====
-- The methods of ProfileDal that change an account.
use wust_algo_tracker.Prelude.{ℕ, String, Bool, not, ◌&&◌, ◌||◌, Option, none, some, ◌==◌}
use wust_algo_tracker.Table.{find, update_where, delete_where}
use wust_algo_tracker.User.Db.{User, Group, Db, user_at}
use wust_algo_tracker.User.Tx.{
  Tx, return, found, read, write, transaction, ◌>>=◌, ◌>>◌, user_missing,
}
use wust_algo_tracker.Team.Owner.{set_group, set_owner}

-- `Model(&User{}).Where("id = ?", k).Update...(f)`
unfoldable pub update_user : ℕ → (User → User) → Db → Db
update_user k f db = record db { users = update_where (λ u. u.id == k) f db.users }

-- GetById
unfoldable pub get_by_id : ℕ → Tx User
get_by_id user_id = do found (← read (λ db. user_at db user_id)) user_missing

-- Update: an absent user is no error.
unfoldable pub update : ℕ → String → String → String → Tx (Unit {0})
unfolding update_user
update user_id avatar email name =
    write (update_user user_id (λ u. record u { avatar = avatar; email = email; name = name }))

-- ChangePassword: `RowsAffected == 0` is an absent user.
unfoldable pub change_password : ℕ → String → Tx (Unit {0})
unfolding update_user
change_password user_id new_password = do
  user ← read (λ db. user_at db user_id)
  write (update_user user_id (λ u. record u { password = new_password }))
  found user user_missing
  return tt

-- SetRoleId
unfoldable pub set_role_id : ℕ → ℕ → Tx (Unit {0})
unfolding update_user
set_role_id user_id role_id = write (update_user user_id (λ u. record u { role_id = role_id }))

-- SetEmailEnabled
unfoldable pub set_email_enabled : ℕ → Bool → Tx (Unit {0})
unfolding update_user
set_email_enabled user_id enabled =
    write (update_user user_id (λ u. record u { email_enabled = enabled }))

-- MoveGroup: whether there is such a group, and whether the user owns another, is not asked.
unfoldable pub move_group : ℕ → ℕ → Tx (Unit {0})
unfolding set_group
move_group user_id g = do
  user ← read (λ db. user_at db user_id)
  write (set_group user_id g)
  found user user_missing
  return tt

-- The id that DeleteUser writes as the new owner: that of the other member with the smallest id.
abbrev pub owner_id_of : Option User → ℕ
owner_id_of none = 0
owner_id_of (some u) = u.id

-- The part of DeleteUser that hands the user's own group over, if there is one.
unfoldable pub hand_over : ℕ → ℕ → Option Group → Tx (Unit {0})
unfolding set_owner find
hand_over user_id g none = return tt
hand_over user_id g (some group) = do
  replacement ← read (λ db. find (λ u. u.group_id == g && not (u.id == user_id)) db.users)
  write (set_owner g (owner_id_of replacement))

-- The group that the user owns and is a member of; 0 is no group's id.
abbrev pub own_group : ℕ → ℕ → Db → Option Group
own_group user_id g db = find (λ r. not (g == 0) && (r.id == g && r.owner_id == user_id)) db.groups

-- DeleteUser
unfoldable pub delete_user : ℕ → Tx (Unit {0})
unfolding hand_over find
delete_user user_id = transaction (do
  user ← found (← read (λ db. user_at db user_id)) user_missing
  group ← read (own_group user_id user.group_id)
  hand_over user_id user.group_id group
  write (λ db. record db {
    invites = delete_where (λ i. i.inviter_id == user_id || i.invitee_id == user_id) db.invites;
  })
  write (λ db. record db { users = delete_where (λ u. u.id == user_id) db.users }))
