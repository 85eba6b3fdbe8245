-- ===== src/Team/Admin.antt =====
-- Create, Delete, Update and GetWithUsers of group.go.
use wust_algo_tracker.Prelude.{ℕ, suc, String, List, some, [], ◌∷◌, ◌++◌, ◌==◌, if◌then◌else◌}
use wust_algo_tracker.User.Db.{User, Group, group_at}
use wust_algo_tracker.User.Tx.{
  Tx, return, found, read, write, ◌>>=◌, ◌>>◌, group_missing, transaction,
}
use wust_algo_tracker.Table.{update_where, select}
use wust_algo_tracker.Text.{is_empty}
use wust_algo_tracker.Team.Owner.{reset_members, delete_group, ensure_group_owner}

-- Create
unfoldable pub create : String → String → Tx ℕ
create name describe = do
  id ← read (λ db. db.next_group)
  write (λ db. record db {
    groups =
        db.groups
        ++ record { id = id; name = some name; describe = describe; avatar = ""; owner_id = 0 }
          ∷ [];
    next_group = suc id;
  })
  return id

-- Delete: no transaction, and the invitations of the group stay as they are.
unfoldable pub delete : ℕ → Tx (Unit {0})
unfolding delete_group reset_members
delete g = do
  group ← read (λ db. group_at db g)
  write (delete_group g)
  found group group_missing
  write (reset_members g)

-- Update: an empty text leaves its column alone; `RowsAffected == 0` is an absent group.
unfoldable pub update : ℕ → String → String → Tx (Unit {0})
update g name describe = do
  group ← read (λ db. group_at db g)
  write (λ db. record db {
    groups =
        update_where (λ r. r.id == g)
          (λ r. record r {
            name = if is_empty name then r.name else some name;
            describe = if is_empty describe then r.describe else describe;
          })
          db.groups;
  })
  found group group_missing
  return tt

-- GetWithUsers: the members are those that were read before ensureGroupOwner wrote.
unfoldable pub get_with_users : ℕ → Tx (Group × List User)
unfolding ensure_group_owner select
get_with_users g = transaction (do
  row ← read (λ db. group_at db g)
  users ← read (λ db. select (λ u. u.group_id == g) db.users)
  group ← found row group_missing
  group ← ensure_group_owner group
  return (group, users))
