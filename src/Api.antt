-- ===== src/Api.antt =====
-- The requests that change the database of the user service, and the states that they lead to: the
-- handlers of app/user/internal/service, one constructor for each, run one after another. A request
-- carries what it gets from outside: the times of the core-data service, and an error of the database.
pub mod Valid
pub mod Admins
use wust_algo_tracker.Prelude.{ℕ, String, Bool, Option, none, some, List, [], ◌∷◌}
use wust_algo_tracker.Permission.{Ctx}
use wust_algo_tracker.User.Db.{User, Db}
use wust_algo_tracker.Team.Service
use wust_algo_tracker.Account.Service.{Bcrypt}
use wust_algo_tracker.Account.Service as Account
use wust_algo_tracker.Account.Login

pub data Request : Type 0 where
  create_team : String → String → String → Request
  update_team : ℕ → String → String → String → Request
  invite_team_member remove_team_member transfer_team_owner : ℕ → Request
  leave_team disband_team : Request
  respond_team_invite : ℕ → Bool → Request
  create_group : String → String → Request
  delete_group : ℕ → Request
  update_group : ℕ → String → String → Request
  team_detail : ℕ → Request
  get_group : (List ℕ → Option (ℕ → Option String)) → ℕ → Request
  update_profile : ℕ → String → String → String → Request
  set_email_enabled : ℕ → Bool → Request
  move_group : ℕ → ℕ → Request
  change_password : ℕ → String → String → Request
  delete_user : ℕ → Request
  set_user_role : ℕ → ℕ → Request
  update_register_invite_code : String → Request
  register : Option String → String → String → String → String → String → Request
  login : String → String → Request

module _ (bcrypt : Bcrypt) (sign : User → Option String) where
  -- The database after a request, whether it was refused or not.
  unfoldable pub handle : Ctx → Request → Db → Db
  handle ctx (create_team name avatar describe) db =
      (Service.create_team ctx name avatar describe db).1
  handle ctx (update_team id name avatar describe) db =
      (Service.update_team ctx id name avatar describe db).1
  handle ctx (invite_team_member user_id) db = (Service.invite_team_member ctx user_id db).1
  handle ctx (remove_team_member user_id) db = (Service.remove_team_member ctx user_id db).1
  handle ctx (transfer_team_owner user_id) db = (Service.transfer_team_owner ctx user_id db).1
  handle ctx leave_team db = (Service.leave_team ctx db).1
  handle ctx disband_team db = (Service.disband_team ctx db).1
  handle ctx (respond_team_invite id accept) db = (Service.respond_team_invite ctx id accept db).1
  handle ctx (create_group name describe) db = (Service.create_group ctx name describe db).1
  handle ctx (delete_group id) db = (Service.delete_group ctx id db).1
  handle ctx (update_group id name describe) db = (Service.update_group ctx id name describe db).1
  handle ctx (team_detail group_id) db = (Service.team_detail group_id db).1
  handle ctx (get_group times id) db = (Service.get_group times id db).1
  handle ctx (update_profile user_id avatar email name) db =
      (Account.update_profile ctx user_id avatar email name db).1
  handle ctx (set_email_enabled user_id enabled) db =
      (Account.set_email_enabled ctx user_id enabled db).1
  handle ctx (move_group user_id g) db = (Account.move_group ctx user_id g db).1
  handle ctx (change_password user_id old_password new_password) db =
      (Account.change_password bcrypt ctx user_id old_password new_password db).1
  handle ctx (delete_user user_id) db = (Account.delete_user ctx user_id db).1
  handle ctx (set_user_role user_id role_id) db = (Account.set_user_role ctx user_id role_id db).1
  handle ctx (update_register_invite_code code) db =
      (Login.update_register_invite_code ctx code db).1
  handle ctx (register create_error code username password name email) db =
      (Login.register bcrypt create_error code username password name email db).1
  handle ctx (login username password) db = (Login.login bcrypt sign username password db).1

-- The database of a new deployment.
abbrev pub empty_db : Db
empty_db = record {
  users = [];
  groups = [];
  invites = [];
  logs = [];
  register_code = none;
  next_user = 1;
  next_group = 1;
  next_invite = 1;
  threads = [];
  messages = [];
  next_thread = 1;
  next_message = 1;
}
