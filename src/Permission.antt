-- ===== src/Permission.antt =====
-- Roles and who may do what (app/common/permission/const.go, app/common/utils/auth/check.go,
-- app/user/internal/service/permission_rules.go, app/core_data/internal/service/spider.go).
pub mod Laws
use wust_algo_tracker.Prelude.{
  ℕ, String, Bool, true, false, not, ◌&&◌, ◌||◌, Option, none, some, ◌==◌, leb, if◌then◌else◌,
}

-- const.go
abbrev pub role_user : ℕ
role_user = 0

abbrev pub role_admin : ℕ
role_admin = 1

abbrev pub role_coach : ℕ
role_coach = 2

unfoldable pub is_valid_role : ℕ → Bool
is_valid_role role = role == role_user || (role == role_coach || role == role_admin)

-- permission.CanManage
unfoldable pub can_manage : ℕ → ℕ → Bool
can_manage caller_role target_role = leb target_role caller_role

-- check.go: the payload of the caller's token, if it could be parsed.
pub record JwtPayload : Type 0 where
  pub user_id : ℕ
  pub username : String
  pub name : String
  pub email : String
  pub role_id : ℕ

abbrev pub Ctx : Type 0
Ctx = Option JwtPayload

unfoldable pub verify_min_role : Ctx → ℕ → Bool
verify_min_role none min_role = false
verify_min_role (some pd) min_role = leb min_role pd.role_id

unfoldable pub verify_self_or_above : Ctx → ℕ → Bool
verify_self_or_above none target_user_id = false
verify_self_or_above (some pd) target_user_id =
    if pd.role_id == role_admin
    then true
    else if pd.role_id == role_coach
    then target_user_id == pd.user_id
    else pd.user_id == target_user_id

unfoldable pub get_current_user_id : Ctx → ℕ
get_current_user_id none = 0
get_current_user_id (some pd) = pd.user_id

unfoldable pub verify_admin : Ctx → Bool
verify_admin none = false
verify_admin (some pd) = pd.role_id == role_admin

unfoldable pub verify_coach : Ctx → Bool
verify_coach none = false
verify_coach (some pd) = pd.role_id == role_coach

-- permission_rules.go
unfoldable pub can_set_user_role : ℕ → ℕ → ℕ → ℕ → ℕ → Bool
unfolding is_valid_role
can_set_user_role caller_id caller_role target_id target_role new_role =
    if not (caller_role == role_admin)
    then false
    else if caller_id == target_id
    then false
    else if target_role == role_admin
    then false
    else if new_role == role_admin
    then false
    else is_valid_role new_role

unfoldable pub can_delete_user : ℕ → ℕ → ℕ → ℕ → Bool
can_delete_user caller_id caller_role target_id target_role =
    if not (caller_role == role_admin)
    then false
    else if caller_id == target_id
    then false
    else not (target_role == role_admin)

unfoldable pub can_broadcast_message : ℕ → Bool
can_broadcast_message caller_role = caller_role == role_admin || caller_role == role_coach

-- canManageCoreOps, canOperateUserDetail of the core-data service
unfoldable pub can_manage_core_ops : ℕ → Bool
can_manage_core_ops role_id = role_id == role_admin || role_id == role_coach

unfoldable pub can_operate_user_detail : ℕ → ℕ → ℕ → Bool
unfolding can_manage_core_ops
can_operate_user_detail current_user_id role_id target_user_id =
    current_user_id == target_user_id || can_manage_core_ops role_id
