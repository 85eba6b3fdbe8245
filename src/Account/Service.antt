-- ===== src/Account/Service.antt =====
-- The handlers of profiles and roles (app/user/internal/service/profile.go, role.go and password.go).
-- bcrypt is a library: the hashing and the comparison are parameters.
use text.Mathlib.Text.{starts_with}
use wust_algo_tracker.Prelude.{
  ℕ, String, Bool, true, false, not, ◌&&◌, ◌||◌, Option, ◌==◌, if◌then◌else◌, str_eq,
}
use wust_algo_tracker.Text.{is_empty}
use wust_algo_tracker.Permission.{
  Ctx, role_admin, verify_min_role, verify_self_or_above, get_current_user_id, is_valid_role,
  can_set_user_role, can_delete_user,
}
use wust_algo_tracker.User.Tx.{
  bad_request, forbidden, internal_server, refused, Tx, return, found, reject_if, wrap, wrap_as,
  ◌>>=◌, ◌>>◌,
}
use wust_algo_tracker.User.Service.{signed_in, record_user_operation}
use wust_algo_tracker.Account.Dal

-- golang.org/x/crypto/bcrypt at the cost that password.go passes.
pub record Bcrypt : Type 0 where
  pub generate : String → Option String
  pub compare : String → String → Bool

-- isBcryptHash
unfoldable pub is_bcrypt_hash : String → Bool
is_bcrypt_hash value =
    starts_with value "$2a$"
    || (starts_with value "$2b$" || (starts_with value "$2x$" || starts_with value "$2y$"))

-- What verifyPassword returns.
pub record Verdict : Type 0 where
  pub valid : Bool
  pub needs_rehash : Bool

-- verifyPassword
unfoldable pub verify_password : Bcrypt → String → String → Verdict
verify_password bcrypt stored candidate =
    if is_bcrypt_hash stored
    then record { valid = bcrypt.compare stored candidate; needs_rehash = false }
    else if str_eq stored candidate
    then record { valid = true; needs_rehash = true }
    else record { valid = false; needs_rehash = false }

-- MoveGroup
unfoldable pub move_group : Ctx → ℕ → ℕ → Tx (Unit {0})
move_group ctx user_id g = do
  reject_if (not (verify_min_role ctx role_admin)) (refused forbidden "权限不足" "需要教练或管理员权限操作")
  wrap internal_server "内部错误" (Dal.move_group user_id g)

-- Update
unfoldable pub update_profile : Ctx → ℕ → String → String → String → Tx (Unit {0})
update_profile ctx user_id avatar email name = do
  reject_if (not (verify_self_or_above ctx user_id)) (refused forbidden "禁止访问" "您无权更新该用户资料")
  wrap internal_server "内部错误" (Dal.update user_id avatar email name)

-- SetEmailEnabled
unfoldable pub set_email_enabled : Ctx → ℕ → Bool → Tx (Unit {0})
set_email_enabled ctx user_id enabled = do
  reject_if (not (verify_self_or_above ctx user_id)) (refused forbidden "禁止访问" "您无权更新该用户资料")
  wrap internal_server "内部错误" (Dal.set_email_enabled user_id enabled)

-- What ChangePassword replies: `Success: false` when the old password is wrong.
pub data PasswordReply : Type 0 where
  changed wrong_password : PasswordReply

-- The end of ChangePassword.
unfoldable pub store_password : Bcrypt → Ctx → ℕ → String → Tx PasswordReply
store_password bcrypt ctx user_id new_password = do
  hash ← found (bcrypt.generate new_password) (refused internal_server "内部错误" "密码加密失败")
  wrap internal_server "内部错误" (Dal.change_password user_id hash)
  record_user_operation ctx "profile.change_password" "user" user_id
  return changed

-- ChangePassword
unfoldable pub change_password : Bcrypt → Ctx → ℕ → String → String → Tx PasswordReply
change_password bcrypt ctx user_id old_password new_password = do
  current ← signed_in ctx
  reject_if (user_id == 0 || is_empty new_password) (refused bad_request "参数错误" "用户ID和新密码不能为空")
  let is_admin = current.role_id == role_admin
  let is_self = current.user_id == user_id
  reject_if (not is_admin && not is_self) (refused forbidden "权限不足" "只能修改自己的密码")
  target ← wrap_as (refused bad_request "用户不存在" "用户不存在") (Dal.get_by_id user_id)
  reject_if (target.role_id == role_admin && not is_self) (refused forbidden "权限不足" "不能重置其他管理员密码")
  reject_if (is_self && is_empty old_password) (refused bad_request "参数错误" "请输入旧密码")
  if is_self && not (verify_password bcrypt target.password old_password).valid
      then return wrong_password
      else store_password bcrypt ctx user_id new_password

-- DeleteUser
unfoldable pub delete_user : Ctx → ℕ → Tx (Unit {0})
delete_user ctx user_id = do
  current ← signed_in ctx
  reject_if (user_id == 0) (refused bad_request "参数错误" "用户ID不能为空")
  target ← wrap_as (refused bad_request "用户不存在" "用户不存在") (Dal.get_by_id user_id)
  reject_if (not (can_delete_user current.user_id current.role_id user_id target.role_id))
      (refused forbidden "权限不足" "仅管理员可删除非管理员用户，且不能删除当前登录账号")
  wrap internal_server "内部错误" (Dal.delete_user user_id)
  record_user_operation ctx "profile.delete_user" "user" user_id

-- role.go: SetUserRole
unfoldable pub set_user_role : Ctx → ℕ → ℕ → Tx (Unit {0})
set_user_role ctx user_id role_id = do
  let only_admin = refused forbidden "权限不足" "仅管理员可设置用户角色"
  caller ← wrap_as only_admin (Dal.get_by_id (get_current_user_id ctx))
  reject_if (not (caller.role_id == role_admin)) only_admin
  reject_if (not (is_valid_role role_id)) (refused bad_request "参数错误" "无效的角色ID")
  target ← wrap_as (refused internal_server "内部错误" "用户不存在") (Dal.get_by_id user_id)
  reject_if
      (not
        (can_set_user_role (get_current_user_id ctx) caller.role_id user_id target.role_id role_id))
      (refused forbidden "权限不足" "不能修改自己、管理员账号，或通过后台直接授予管理员角色")
  wrap_as (refused internal_server "内部错误" "更新角色失败") (Dal.set_role_id user_id role_id)
  record_user_operation ctx "role.set_user_role" "user" user_id
