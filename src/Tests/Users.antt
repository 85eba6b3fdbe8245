-- ===== src/Tests/Users.antt =====
-- Teams, accounts and messages at the sample database.
use wust_algo_tracker.Prelude.{ℕ, ◌≡◌, refl, true, none, arith}
use wust_algo_tracker.Table.{get, find}
use wust_algo_tracker.Text.{trim_space}
use wust_algo_tracker.Permission.{JwtPayload, verify_min_role}
use wust_algo_tracker.User.Db.{user_at}
use wust_algo_tracker.User.Tx.{ok}
use wust_algo_tracker.User.Tx.Yields.{Yields}
use wust_algo_tracker.Team.Valid.{IsValid}
use wust_algo_tracker.Team.Admins.{is_admin}
use wust_algo_tracker.Team.Members.{remove_team_member, transfer_team_owner, disband_team}
use wust_algo_tracker.Team.Invites.{respond_invite}
use wust_algo_tracker.Team.Outcome.{
  Removed, Transferred, Disbanded, remove_team_member-Removed, transfer_team_owner-Transferred,
  disband_team-Disbanded, Read, get_with_users-Read,
}
use wust_algo_tracker.Team.Admin.{get_with_users}
use wust_algo_tracker.Team.Joined.{Joined, respond_invite-Joined}
use wust_algo_tracker.Team.Success.{
  disband_team-succeeds, remove_team_member-succeeds, respond_invite-succeeds,
}
use wust_algo_tracker.Account.Service.{move_group}
use wust_algo_tracker.Account.Findings.{move_group-breaks}
use wust_algo_tracker.Account.Login.{
  registered, logged_in, register, login, validate_register_invite_code, get_register_invite_code,
  default_register_invite_code,
}
use wust_algo_tracker.Account.Login.Roundtrip.{register-login}
use wust_algo_tracker.Messages.Counted.{Counted}
use wust_algo_tracker.Messages.Requests as Messages
use wust_algo_tracker.Messages.Requests.{handle-Counted}
use wust_algo_tracker.Api.{handle, respond_team_invite, set_user_role}
use wust_algo_tracker.Api.Valid.{handle-IsValid}
use wust_algo_tracker.Api.Admins.{handle-is_admin}
use wust_algo_tracker.Tests.Sample.{
  olga, mia, ivan, team, invite, sample, sample-IsValid, sample-Counted, signed_in_as, toy_bcrypt,
  toy_bcrypt-IsBcrypt, sign_all,
}

handle-IsValid_example :
    IsValid (handle toy_bcrypt sign_all (signed_in_as 4 0) (respond_team_invite 1 true) sample)
handle-IsValid_example =
    handle-IsValid toy_bcrypt sign_all (signed_in_as 4 0) (respond_team_invite 1 true) sample tt
      sample-IsValid

handle-is_admin_example :
    is_admin (user_at (handle toy_bcrypt sign_all (signed_in_as 1 1) (set_user_role 4 2) sample) 4)
    ≡ is_admin (user_at sample 4)
handle-is_admin_example =
    handle-is_admin toy_bcrypt sign_all (signed_in_as 1 1) (set_user_role 4 2) sample 4

respond_invite-Joined_example : Yields (λ _. Joined 4 1 sample) (respond_invite 4 1 true sample)
respond_invite-Joined_example = respond_invite-Joined 4 1 sample

disband_team-Disbanded_example : Yields (λ _. Disbanded 2 sample) (disband_team 2 sample)
disband_team-Disbanded_example = disband_team-Disbanded 2 sample sample-IsValid

remove_team_member-Removed_example :
    Yields (λ _. Removed 2 3 sample) (remove_team_member 2 3 sample)
remove_team_member-Removed_example = remove_team_member-Removed 2 3 sample sample-IsValid

transfer_team_owner-Transferred_example :
    Yields (λ _. Transferred 2 3 sample) (transfer_team_owner 2 3 sample)
transfer_team_owner-Transferred_example = transfer_team_owner-Transferred 2 3 sample sample-IsValid

disband_team-succeeds_example :
    ((disband_team 2 sample).0 ≡ ok tt) × Disbanded 2 sample (disband_team 2 sample).1
unfolding get
disband_team-succeeds_example =
    disband_team-succeeds 2 olga team sample sample-IsValid refl (ground arith) refl refl
      (ground arith)

remove_team_member-succeeds_example :
    ((remove_team_member 2 3 sample).0 ≡ ok tt)
    × Removed 2 3 sample (remove_team_member 2 3 sample).1
unfolding get
remove_team_member-succeeds_example =
    remove_team_member-succeeds 2 3 olga mia team sample sample-IsValid refl (ground arith) refl
      refl (ground arith) refl refl (ground arith)

get_with_users-Read_example : Yields (Read sample 1) (get_with_users 1 sample)
get_with_users-Read_example = get_with_users-Read 1 sample sample-IsValid

respond_invite-succeeds_example :
    ((respond_invite 4 1 true sample).0 ≡ ok tt)
    × Joined 4 1 sample (respond_invite 4 1 true sample).1
unfolding get find
respond_invite-succeeds_example =
    respond_invite-succeeds 4 1 ivan invite team sample refl refl refl refl

move_group-breaks_example : ¬ IsValid (move_group (signed_in_as 1 1) 2 0 sample).1
unfolding get verify_min_role
move_group-breaks_example =
    move_group-breaks (signed_in_as 1 1) olga 1 team 0 sample refl refl (ground arith) refl
      (ground arith)

register-login_example :
    ((register toy_bcrypt none default_register_invite_code "eva" "secret" "Eva" "" sample).0
      ≡ ok registered)
    × ((login toy_bcrypt sign_all "eva" "secret"
          (register toy_bcrypt none default_register_invite_code "eva" "secret" "Eva" ""
            sample).1).0
        ≡ ok (logged_in "token"))
unfolding find validate_register_invite_code get_register_invite_code trim_space
register-login_example =
    register-login toy_bcrypt sign_all default_register_invite_code "eva" "secret" "Eva" ""
      "$2a$10$secret" "token" sample toy_bcrypt-IsBcrypt refl refl refl refl

handle-Counted_example :
    Counted (Messages.handle (signed_in_as 1 1) (Messages.broadcast "hello") sample)
handle-Counted_example =
    handle-Counted (signed_in_as 1 1) (Messages.broadcast "hello") sample sample-Counted

abbrev payload : ℕ → JwtPayload
payload role = record { user_id = 1; username = ""; name = ""; email = ""; role_id = role }
