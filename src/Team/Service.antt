-- ===== src/Team/Service.antt =====
-- The handlers of teams and groups (app/user/internal/service/team.go and group.go). A handler
-- returns what its reply carries: the team, its users or an invitation, or the reply's message.
pub mod Valid
use wust_algo_tracker.Prelude.{
  ℕ, String, Bool, not, Option, none, some, List, [], ◌∷◌, length, map, ◌&&◌, ◌==◌, if◌then◌else◌,
}
use wust_algo_tracker.Text.{is_empty}
use wust_algo_tracker.Permission.{Ctx, role_admin, verify_min_role}
use wust_algo_tracker.User.Db.{User, Group, GroupInvite}
use wust_algo_tracker.User.Tx.{
  bad_request, forbidden, internal_server, refused, Tx, return, reject_if, wrap, ◌>>=◌, ◌>>◌,
}
use wust_algo_tracker.User.Service.{signed_in, record_user_operation}
use wust_algo_tracker.Team.Admin
use wust_algo_tracker.Team.Members
use wust_algo_tracker.Team.Invites

-- TeamDetailReply: the id, name, avatar, description and owner are those of `team`, and empty
-- with the name "无团队" where there is none.
pub record TeamDetailReply : Type 0 where
  pub team : Option Group
  pub users : List User

-- TeamDetail: it reads a team, and may write its owner.
unfoldable pub team_detail : ℕ → Tx TeamDetailReply
team_detail group_id = if group_id == 0 then return (record { team = none; users = [] }) else (do
  r ← wrap internal_server "查询失败" (Admin.get_with_users group_id)
  return (record { team = some r.0; users = r.1 }))

-- A user of GetReply, with the time of the last submission or "".
pub record GroupUser : Type 0 where
  pub user : User
  pub last_submit : String

pub record GetReply : Type 0 where
  pub group : Group
  pub users : List GroupUser

abbrev pub last_submit_of : (ℕ → Option String) → ℕ → String
last_submit_of times id = elim (times id) [ none ↦ "" | some t ↦ t ]

-- The users of the reply: none where the core-data service has no answer.
unfoldable pub group_users : List User → Option (ℕ → Option String) → List GroupUser
group_users users none = []
group_users users (some times) =
    map (λ u. record { user = u; last_submit = last_submit_of times u.id }) users

-- group.go: Get, where `times` is what the core-data service answers, as text, for a list of ids
unfoldable pub get_group : (List ℕ → Option (ℕ → Option String)) → ℕ → Tx GetReply
unfolding group_users
get_group times id = do
  r ← wrap internal_server "查询失败" (Admin.get_with_users id)
  return (record {
    group = r.0;
    users = if length r.1 == 0 then [] else group_users r.1 (times (map (λ u. u.id) r.1));
  })

-- CreateTeam
unfoldable pub create_team : Ctx → String → String → String → Tx Group
create_team ctx name avatar describe = do
  current ← signed_in ctx
  reject_if (is_empty name) (refused bad_request "参数错误" "团队名称不能为空")
  created ←
      wrap bad_request "创建失败" (Members.create_team_for_user current.user_id name avatar describe)
  record_user_operation ctx "team.create" "team" created.id
  return created

-- UpdateTeam
unfoldable pub update_team : Ctx → ℕ → String → String → String → Tx String
update_team ctx id name avatar describe = do
  current ← signed_in ctx
  reject_if (id == 0) (refused bad_request "参数错误" "团队ID不能为空")
  reject_if (is_empty name) (refused bad_request "参数错误" "团队名称不能为空")
  wrap bad_request "更新失败" (Members.update_team current.user_id id name avatar describe)
  record_user_operation ctx "team.update" "team" id
  return "团队资料已更新"

-- InviteTeamMember
unfoldable pub invite_team_member : Ctx → ℕ → Tx GroupInvite
invite_team_member ctx invitee_id = do
  current ← signed_in ctx
  reject_if (invitee_id == 0) (refused bad_request "参数错误" "请选择邀请用户")
  invite ← wrap bad_request "邀请失败" (Invites.invite_user current.user_id invitee_id)
  record_user_operation ctx "team.invite" "user" invitee_id
  return invite

-- RemoveTeamMember
unfoldable pub remove_team_member : Ctx → ℕ → Tx String
remove_team_member ctx user_id = do
  current ← signed_in ctx
  reject_if (user_id == 0) (refused bad_request "参数错误" "成员ID不能为空")
  wrap bad_request "移除失败" (Members.remove_team_member current.user_id user_id)
  record_user_operation ctx "team.remove_member" "user" user_id
  return "成员已移出团队"

-- TransferTeamOwner
unfoldable pub transfer_team_owner : Ctx → ℕ → Tx String
transfer_team_owner ctx user_id = do
  current ← signed_in ctx
  reject_if (user_id == 0) (refused bad_request "参数错误" "新队长ID不能为空")
  wrap bad_request "转移失败" (Members.transfer_team_owner current.user_id user_id)
  record_user_operation ctx "team.transfer_owner" "user" user_id
  return "队长已转移"

-- LeaveTeam
unfoldable pub leave_team : Ctx → Tx String
leave_team ctx = do
  current ← signed_in ctx
  wrap bad_request "退出失败" (Members.leave_team current.user_id)
  record_user_operation ctx "team.leave" "user" current.user_id
  return "已退出团队"

-- DisbandTeam
unfoldable pub disband_team : Ctx → Tx String
disband_team ctx = do
  current ← signed_in ctx
  wrap bad_request "解散失败" (Members.disband_team current.user_id)
  record_user_operation ctx "team.disband" "user" current.user_id
  return "团队已解散"

-- RespondTeamInvite
unfoldable pub respond_team_invite : Ctx → ℕ → Bool → Tx String
respond_team_invite ctx invite_id accept = do
  current ← signed_in ctx
  reject_if (invite_id == 0) (refused bad_request "参数错误" "邀请ID不能为空")
  wrap bad_request "处理失败" (Invites.respond_invite current.user_id invite_id accept)
  return (if accept then "已加入团队" else "已拒绝邀请")

-- group.go: Create
unfoldable pub create_group : Ctx → String → String → Tx ℕ
create_group ctx name describe = do
  reject_if (not (verify_min_role ctx role_admin)) (refused forbidden "权限不足" "需要教练或管理员权限操作")
  reject_if (is_empty name) (refused bad_request "参数错误" "组名称不能为空")
  id ← wrap internal_server "创建失败" (Admin.create name describe)
  record_user_operation ctx "group.create" "group" id
  return id

-- group.go: Delete
unfoldable pub delete_group : Ctx → ℕ → Tx (Unit {0})
delete_group ctx id = do
  reject_if (not (verify_min_role ctx role_admin)) (refused forbidden "权限不足" "需要教练或管理员权限操作")
  reject_if (id == 0) (refused bad_request "参数错误" "组ID不能为空")
  wrap internal_server "删除失败" (Admin.delete id)
  record_user_operation ctx "group.delete" "group" id

-- group.go: Update
unfoldable pub update_group : Ctx → ℕ → String → String → Tx (Unit {0})
update_group ctx id name describe = do
  reject_if (not (verify_min_role ctx role_admin)) (refused forbidden "权限不足" "需要教练或管理员权限操作")
  reject_if (id == 0) (refused bad_request "参数错误" "组ID不能为空")
  reject_if (is_empty name && is_empty describe) (refused bad_request "参数错误" "至少更新一个字段")
  wrap internal_server "更新失败" (Admin.update id name describe)
  record_user_operation ctx "group.update" "group" id
