-- ===== src/Api/Admins.antt =====
-- No request changes who the administrators are.
use wust_algo_tracker.Prelude.{ℕ, String, ◌≡◌, refl, Option}
use wust_algo_tracker.Permission.{Ctx}
use wust_algo_tracker.User.Db.{User, Db, user_at}
use wust_algo_tracker.Team.Admins.{is_admin}
use wust_algo_tracker.Team.Admins as Team
use wust_algo_tracker.Account.Service.{Bcrypt}
use wust_algo_tracker.Account.Admins as Account
use wust_algo_tracker.Account.Edits
use wust_algo_tracker.Api.{
  Request, handle, create_team, update_team, invite_team_member, remove_team_member,
  transfer_team_owner, leave_team, disband_team, respond_team_invite, create_group, delete_group,
  update_group, team_detail, get_group, update_profile, set_email_enabled, move_group,
  change_password, delete_user, set_user_role, update_register_invite_code, register, login,
}

-- A user is an administrator after a request exactly if the user was one before: no request of any
-- caller, answered or refused, makes, demotes or deletes an administrator.
pub handle-is_admin :
    (bcrypt : Bcrypt) (sign : User → Option String) (ctx : Ctx) (r : Request) (db : Db) (k : ℕ)
    → is_admin (user_at (handle bcrypt sign ctx r db) k) ≡ is_admin (user_at db k)
unfolding handle
handle-is_admin bcrypt sign ctx (create_team name avatar describe) db k =
    (Team.create_team-handler-Admins (λ j. is_admin (user_at db j)) ctx name avatar describe).at db
      (λ j. refl) k
handle-is_admin bcrypt sign ctx (update_team id name avatar describe) db k =
    (Team.update_team-handler-Admins (λ j. is_admin (user_at db j)) ctx id name avatar describe).at
      db (λ j. refl) k
handle-is_admin bcrypt sign ctx (invite_team_member user_id) db k =
    (Team.invite_team_member-handler-Admins (λ j. is_admin (user_at db j)) ctx user_id).at db
      (λ j. refl) k
handle-is_admin bcrypt sign ctx (remove_team_member user_id) db k =
    (Team.remove_team_member-handler-Admins (λ j. is_admin (user_at db j)) ctx user_id).at db
      (λ j. refl) k
handle-is_admin bcrypt sign ctx (transfer_team_owner user_id) db k =
    (Team.transfer_team_owner-handler-Admins (λ j. is_admin (user_at db j)) ctx user_id).at db
      (λ j. refl) k
handle-is_admin bcrypt sign ctx leave_team db k =
    (Team.leave_team-handler-Admins (λ j. is_admin (user_at db j)) ctx).at db (λ j. refl) k
handle-is_admin bcrypt sign ctx disband_team db k =
    (Team.disband_team-handler-Admins (λ j. is_admin (user_at db j)) ctx).at db (λ j. refl) k
handle-is_admin bcrypt sign ctx (respond_team_invite id accept) db k =
    (Team.respond_team_invite-handler-Admins (λ j. is_admin (user_at db j)) ctx id accept).at db
      (λ j. refl) k
handle-is_admin bcrypt sign ctx (create_group name describe) db k =
    (Team.create_group-handler-Admins (λ j. is_admin (user_at db j)) ctx name describe).at db
      (λ j. refl) k
handle-is_admin bcrypt sign ctx (delete_group id) db k =
    (Team.delete_group-handler-Admins (λ j. is_admin (user_at db j)) ctx id).at db (λ j. refl) k
handle-is_admin bcrypt sign ctx (update_group id name describe) db k =
    (Team.update_group-handler-Admins (λ j. is_admin (user_at db j)) ctx id name describe).at db
      (λ j. refl) k
handle-is_admin bcrypt sign ctx (team_detail group_id) db k =
    (Team.team_detail-handler-Admins (λ j. is_admin (user_at db j)) group_id).at db (λ j. refl) k
handle-is_admin bcrypt sign ctx (get_group times id) db k =
    (Team.get_group-handler-Admins (λ j. is_admin (user_at db j)) times id).at db (λ j. refl) k
handle-is_admin bcrypt sign ctx (update_profile user_id avatar email name) db k =
    (Edits.update_profile-handler-Admins (λ j. is_admin (user_at db j)) ctx user_id avatar email
        name).at
      db (λ j. refl) k
handle-is_admin bcrypt sign ctx (set_email_enabled user_id enabled) db k =
    (Edits.set_email_enabled-handler-Admins (λ j. is_admin (user_at db j)) ctx user_id enabled).at
      db (λ j. refl) k
handle-is_admin bcrypt sign ctx (move_group user_id g) db k =
    (Edits.move_group-handler-Admins (λ j. is_admin (user_at db j)) ctx user_id g).at db (λ j. refl)
      k
handle-is_admin bcrypt sign ctx (change_password user_id old_password new_password) db k =
    (Edits.change_password-handler-Admins (λ j. is_admin (user_at db j)) bcrypt ctx user_id
        old_password new_password).at
      db (λ j. refl) k
handle-is_admin bcrypt sign ctx (delete_user user_id) db k =
    (Account.delete_user-handler-Admins (λ j. is_admin (user_at db j)) ctx user_id).at db
      (λ j. refl) k
handle-is_admin bcrypt sign ctx (set_user_role user_id role_id) db k =
    (Account.set_user_role-handler-Admins (λ j. is_admin (user_at db j)) ctx user_id role_id).at db
      (λ j. refl) k
handle-is_admin bcrypt sign ctx (update_register_invite_code code) db k =
    (Edits.update_register_invite_code-handler-Admins (λ j. is_admin (user_at db j)) ctx code).at db
      (λ j. refl) k
handle-is_admin bcrypt sign ctx (register create_error code username password name email) db k =
    (Edits.register-handler-Admins (λ j. is_admin (user_at db j)) bcrypt create_error code username
        password name email).at
      db (λ j. refl) k
handle-is_admin bcrypt sign ctx (login username password) db k =
    (Edits.login-handler-Admins (λ j. is_admin (user_at db j)) bcrypt sign username password).at db
      (λ j. refl) k
