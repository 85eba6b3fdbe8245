-- ===== src/Account/Findings.antt =====
-- What MoveGroup does to the invariant of users and groups.
use wust_algo_tracker.Prelude.{ℕ, ◌≡◌, ◌≢◌, true, some, arith}
use wust_algo_tracker.Table.Laws.{get-key}
use wust_algo_tracker.Permission.{Ctx, role_admin, verify_min_role}
use wust_algo_tracker.User.Db.{User, Group, Db, user_key, user_at, group_at}
use wust_algo_tracker.User.Tx.{
  read, write, return, found, proceed, reject_if, wrap, wrap_result, ◌>>=◌, ◌>>◌,
}
use wust_algo_tracker.Team.Owner.{set_group}
use wust_algo_tracker.Team.Valid.{user-set_group, IsValid}
use wust_algo_tracker.Account.Dal
use wust_algo_tracker.Account.Service.{move_group}

-- MoveGroup, called by anyone who passes the role test, moves an owner out of the group that it
-- owns: the invariant is then broken, for every owner and every other target group.
pub move_group-breaks :
    (ctx : Ctx) (u : User) (g : ℕ) (r : Group) (target : ℕ) (db : Db)
    → verify_min_role ctx role_admin ≡ true
    → group_at db g ≡ some r
    → r.owner_id ≢ 0
    → user_at db r.owner_id ≡ some u
    → target ≢ g
    → ¬ IsValid (move_group ctx r.owner_id target db).1
unfolding move_group Dal.move_group read write return found proceed reject_if wrap wrap_result
    set_group ◌>>=◌ ◌>>◌
move_group-breaks ctx u g r target db role at nz at_user ne = λ v. ground (
  arith,
  v.owned g r,
  user-set_group r.owner_id target r.owner_id db,
  get-key user_key r.owner_id u db.users,
)
