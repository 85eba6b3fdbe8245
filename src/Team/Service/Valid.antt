-- ===== src/Team/Service/Valid.antt =====
-- The handlers of teams and groups keep the invariant.
use wust_algo_tracker.Prelude.{ℕ, String, Bool, Option, List}
use wust_algo_tracker.Permission.{Ctx}
use wust_algo_tracker.User.Tx.Preserves.{Preserves, preserve_rules, Preserves-write}
use wust_algo_tracker.User.Service.{signed_in, record_user_operation}
use wust_algo_tracker.Team.Valid.{IsValid}
use wust_algo_tracker.Team.Preserves.{team_calls}
use wust_algo_tracker.Team.Service.{
  create_team, update_team, invite_team_member, remove_team_member, transfer_team_owner, leave_team,
  disband_team, respond_team_invite, create_group, delete_group, update_group, team_detail,
  get_group,
}

pub signed_in-IsValid : (ctx : Ctx) → Preserves IsValid (signed_in ctx)
unfolding signed_in
signed_in-IsValid ctx = search preserve_rules

pub record_user_operation-IsValid :
    (ctx : Ctx) (action target_type : String) (target_id : ℕ)
    → Preserves IsValid (record_user_operation ctx action target_type target_id)
unfolding record_user_operation
record_user_operation-IsValid ctx action target_type target_id = Preserves-write IsValid _ λ db v.
    record {
      owned = v.owned;
      grouped = v.grouped;
      zero_free = v.zero_free;
      fresh = v.fresh;
      next_pos = v.next_pos;
      user_fresh = v.user_fresh;
      distinct = v.distinct;
    }

pub ruleset service_calls = (signed_in-IsValid, record_user_operation-IsValid)

pub create_team-IsValid :
    (ctx : Ctx) (name avatar describe : String)
    → Preserves IsValid (create_team ctx name avatar describe)
unfolding create_team
create_team-IsValid ctx name avatar describe =
    search (preserve_rules, service_calls, team_calls) depth 12

pub update_team-IsValid :
    (ctx : Ctx) (id : ℕ) (name avatar describe : String)
    → Preserves IsValid (update_team ctx id name avatar describe)
unfolding update_team
update_team-IsValid ctx id name avatar describe =
    search (preserve_rules, service_calls, team_calls) depth 12

pub invite_team_member-IsValid :
    (ctx : Ctx) (invitee_id : ℕ) → Preserves IsValid (invite_team_member ctx invitee_id)
unfolding invite_team_member
invite_team_member-IsValid ctx invitee_id =
    search (preserve_rules, service_calls, team_calls) depth 12

pub remove_team_member-IsValid :
    (ctx : Ctx) (user_id : ℕ) → Preserves IsValid (remove_team_member ctx user_id)
unfolding remove_team_member
remove_team_member-IsValid ctx user_id = search (preserve_rules, service_calls, team_calls) depth 12

pub transfer_team_owner-IsValid :
    (ctx : Ctx) (user_id : ℕ) → Preserves IsValid (transfer_team_owner ctx user_id)
unfolding transfer_team_owner
transfer_team_owner-IsValid ctx user_id =
    search (preserve_rules, service_calls, team_calls) depth 12

pub leave_team-IsValid : (ctx : Ctx) → Preserves IsValid (leave_team ctx)
unfolding leave_team
leave_team-IsValid ctx = search (preserve_rules, service_calls, team_calls) depth 12

pub disband_team-IsValid : (ctx : Ctx) → Preserves IsValid (disband_team ctx)
unfolding disband_team
disband_team-IsValid ctx = search (preserve_rules, service_calls, team_calls) depth 12

pub respond_team_invite-IsValid :
    (ctx : Ctx) (invite_id : ℕ) (accept : Bool)
    → Preserves IsValid (respond_team_invite ctx invite_id accept)
unfolding respond_team_invite
respond_team_invite-IsValid ctx invite_id accept =
    search (preserve_rules, service_calls, team_calls) depth 12

pub create_group-IsValid :
    (ctx : Ctx) (name describe : String) → Preserves IsValid (create_group ctx name describe)
unfolding create_group
create_group-IsValid ctx name describe = search (preserve_rules, service_calls, team_calls) depth 12

pub delete_group-IsValid : (ctx : Ctx) (id : ℕ) → Preserves IsValid (delete_group ctx id)
unfolding delete_group
delete_group-IsValid ctx id = search (preserve_rules, service_calls, team_calls) depth 12

pub update_group-IsValid :
    (ctx : Ctx) (id : ℕ) (name describe : String)
    → Preserves IsValid (update_group ctx id name describe)
unfolding update_group
update_group-IsValid ctx id name describe =
    search (preserve_rules, service_calls, team_calls) depth 12

pub team_detail-IsValid : (group_id : ℕ) → Preserves IsValid (team_detail group_id)
unfolding team_detail
team_detail-IsValid group_id = search (preserve_rules, team_calls) depth 12

pub get_group-IsValid :
    (times : List ℕ → Option (ℕ → Option String)) (id : ℕ) → Preserves IsValid (get_group times id)
unfolding get_group
get_group-IsValid times id = search (preserve_rules, team_calls) depth 12
