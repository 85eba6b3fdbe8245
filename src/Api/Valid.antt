-- ===== src/Api/Valid.antt =====
-- The invariant of users and groups over the requests of Api.
use wust_algo_tracker.Prelude.{String, refl, Option, arith}
use wust_algo_tracker.Permission.{Ctx}
use wust_algo_tracker.Table.{get}
use wust_algo_tracker.User.Db.{User, Db}
use wust_algo_tracker.Team.Valid.{IsValid}
use wust_algo_tracker.Team.Service.Valid as Team
use wust_algo_tracker.Account.Service.{Bcrypt}
use wust_algo_tracker.Account.Valid.{MoveAllowed}
use wust_algo_tracker.Account.Valid as Account
use wust_algo_tracker.Api.{
  Request, handle, empty_db, create_team, update_team, invite_team_member, remove_team_member,
  transfer_team_owner, leave_team, disband_team, respond_team_invite, create_group, delete_group,
  update_group, team_detail, get_group, update_profile, set_email_enabled, move_group,
  change_password, delete_user, set_user_role, update_register_invite_code, register, login,
}

-- What a request has to fulfil: MoveGroup moves no owner, and only to a group that is there.
abbrev pub Allowed : Request → Db → Type 0
Allowed (move_group user_id g) db = MoveAllowed user_id g db
Allowed _ db = Unit

-- Every request keeps the invariant of users and groups, whether it is answered or refused;
-- MoveGroup under the condition that it moves no owner and moves only to a group that is there.
pub handle-IsValid :
    (bcrypt : Bcrypt) (sign : User → Option String) (ctx : Ctx) (r : Request) (db : Db)
    → Allowed r db
    → IsValid db
    → IsValid (handle bcrypt sign ctx r db)
unfolding handle
handle-IsValid bcrypt sign ctx (create_team name avatar describe) db a v =
    (Team.create_team-IsValid ctx name avatar describe).at db v
handle-IsValid bcrypt sign ctx (update_team id name avatar describe) db a v =
    (Team.update_team-IsValid ctx id name avatar describe).at db v
handle-IsValid bcrypt sign ctx (invite_team_member user_id) db a v =
    (Team.invite_team_member-IsValid ctx user_id).at db v
handle-IsValid bcrypt sign ctx (remove_team_member user_id) db a v =
    (Team.remove_team_member-IsValid ctx user_id).at db v
handle-IsValid bcrypt sign ctx (transfer_team_owner user_id) db a v =
    (Team.transfer_team_owner-IsValid ctx user_id).at db v
handle-IsValid bcrypt sign ctx leave_team db a v = (Team.leave_team-IsValid ctx).at db v
handle-IsValid bcrypt sign ctx disband_team db a v = (Team.disband_team-IsValid ctx).at db v
handle-IsValid bcrypt sign ctx (respond_team_invite id accept) db a v =
    (Team.respond_team_invite-IsValid ctx id accept).at db v
handle-IsValid bcrypt sign ctx (create_group name describe) db a v =
    (Team.create_group-IsValid ctx name describe).at db v
handle-IsValid bcrypt sign ctx (delete_group id) db a v = (Team.delete_group-IsValid ctx id).at db v
handle-IsValid bcrypt sign ctx (update_group id name describe) db a v =
    (Team.update_group-IsValid ctx id name describe).at db v
handle-IsValid bcrypt sign ctx (team_detail group_id) db a v =
    (Team.team_detail-IsValid group_id).at db v
handle-IsValid bcrypt sign ctx (get_group times id) db a v =
    (Team.get_group-IsValid times id).at db v
handle-IsValid bcrypt sign ctx (update_profile user_id avatar email name) db a v =
    (Account.update_profile-IsValid ctx user_id avatar email name).at db v
handle-IsValid bcrypt sign ctx (set_email_enabled user_id enabled) db a v =
    (Account.set_email_enabled-IsValid ctx user_id enabled).at db v
handle-IsValid bcrypt sign ctx (move_group user_id g) db a v =
    Account.move_group-IsValid ctx user_id g db v a
handle-IsValid bcrypt sign ctx (change_password user_id old_password new_password) db a v =
    (Account.change_password-IsValid bcrypt ctx user_id old_password new_password).at db v
handle-IsValid bcrypt sign ctx (delete_user user_id) db a v =
    (Account.delete_user-handler-IsValid ctx user_id).at db v
handle-IsValid bcrypt sign ctx (set_user_role user_id role_id) db a v =
    (Account.set_user_role-IsValid ctx user_id role_id).at db v
handle-IsValid bcrypt sign ctx (update_register_invite_code code) db a v =
    (Account.update_register_invite_code-IsValid ctx code).at db v
handle-IsValid bcrypt sign ctx (register create_error code username password name email) db a v =
    (Account.register-IsValid bcrypt create_error code username password name email).at db v
handle-IsValid bcrypt sign ctx (login username password) db a v =
    (Account.login-IsValid bcrypt sign username password).at db v

-- The states that allowed requests of any callers lead to from an empty database.
data Reachable (bcrypt : Bcrypt) (sign : User → Option String) : Db → Type 0 where
  start : Reachable bcrypt sign empty_db
  step :
      (ctx : Ctx) (r : Request) (db : Db)
      → Allowed r db
      → Reachable bcrypt sign db
      → Reachable bcrypt sign (handle bcrypt sign ctx r db)

empty_db-IsValid : IsValid empty_db
unfolding get
empty_db-IsValid = record {
  owned = λ g r e z. ground arith;
  grouped = λ k u e z. ground arith;
  zero_free = refl;
  fresh = λ g l. refl;
  next_pos = omega arith;
  user_fresh = λ k l. refl;
  distinct = tt;
}

-- In every state that allowed requests lead to from an empty database, the invariant holds: every
-- owner is a member of the group, and every member's group is there.
Reachable-IsValid :
    (bcrypt : Bcrypt) (sign : User → Option String) (db : Db)
    → Reachable bcrypt sign db
    → IsValid db
Reachable-IsValid bcrypt sign db start = empty_db-IsValid
Reachable-IsValid bcrypt sign db (step ctx r before a reached) =
    handle-IsValid bcrypt sign ctx r before a (Reachable-IsValid bcrypt sign before reached)
